-- ===== src/Bindings/SrpAllocateClient.antt =====
-- gnutls/library/functions.py, from `gnutls_srp_allocate_client_credentials` to `gnutls_srp_verifier`.
use python3_gnutls.Prelude.{none, List, [], ◌∷◌}
use python3_gnutls.Bindings.Entry.{c_int, c_char_p, nothing, Binding, function}

abbrev pub from_srp_allocate_client_credentials : List Binding
from_srp_allocate_client_credentials =
    function "gnutls_srp_allocate_client_credentials" "gnutls_srp_allocate_client_credentials"
      ("POINTER(gnutls_srp_client_credentials_t)" ∷ []) c_int none
    ∷ function "gnutls_srp_allocate_server_credentials" "gnutls_srp_allocate_server_credentials"
        ("POINTER(gnutls_srp_server_credentials_t)" ∷ []) c_int none
    ∷ function "gnutls_srp_base64_decode" "gnutls_srp_base64_decode"
        ("POINTER(gnutls_datum_t)" ∷ "c_char_p" ∷ "POINTER(size_t)" ∷ []) c_int none
    ∷ function "gnutls_srp_base64_encode" "gnutls_srp_base64_encode"
        ("POINTER(gnutls_datum_t)" ∷ "c_char_p" ∷ "POINTER(size_t)" ∷ []) c_int none
    ∷ function "gnutls_srp_free_client_credentials" "gnutls_srp_free_client_credentials"
        ("gnutls_srp_client_credentials_t" ∷ []) nothing none
    ∷ function "gnutls_srp_free_server_credentials" "gnutls_srp_free_server_credentials"
        ("gnutls_srp_server_credentials_t" ∷ []) nothing none
    ∷ function "gnutls_srp_server_get_username" "gnutls_srp_server_get_username"
        ("gnutls_session_t" ∷ []) c_char_p none
    ∷ function "gnutls_srp_set_client_credentials" "gnutls_srp_set_client_credentials"
        ("gnutls_srp_client_credentials_t" ∷ "c_char_p" ∷ "c_char_p" ∷ []) c_int none
    ∷ function "gnutls_srp_set_client_credentials_function"
        "gnutls_srp_set_client_credentials_function"
        ("gnutls_srp_client_credentials_t" ∷ "gnutls_srp_client_credentials_function" ∷ []) nothing
        none
    ∷ function "gnutls_srp_set_server_credentials_file" "gnutls_srp_set_server_credentials_file"
        ("gnutls_srp_server_credentials_t" ∷ "c_char_p" ∷ "c_char_p" ∷ []) c_int none
    ∷ function "gnutls_srp_set_server_credentials_function"
        "gnutls_srp_set_server_credentials_function"
        ("gnutls_srp_server_credentials_t" ∷ "gnutls_srp_server_credentials_function" ∷ []) nothing
        none
    ∷ function "gnutls_srp_verifier" "gnutls_srp_verifier"
        ("c_char_p" ∷ "c_char_p" ∷ "POINTER(gnutls_datum_t)" ∷ "POINTER(gnutls_datum_t)"
          ∷ "POINTER(gnutls_datum_t)" ∷ "POINTER(gnutls_datum_t)" ∷ [])
        c_int none
    ∷ []
