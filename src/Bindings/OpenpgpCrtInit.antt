-- ===== src/Bindings/OpenpgpCrtInit.antt =====
-- gnutls/library/functions.py, from `gnutls_openpgp_crt_init` to `gnutls_openpgp_send_cert`.
use python3_gnutls.Prelude.{none, some, List, [], ◌∷◌}
use python3_gnutls.Bindings.Entry.{c_int, time_t, nothing, enum, Binding, function}

abbrev pub from_openpgp_crt_init : List Binding
from_openpgp_crt_init =
    function "gnutls_openpgp_crt_init" "gnutls_openpgp_crt_init"
      ("POINTER(gnutls_openpgp_crt_t)" ∷ []) c_int none
    ∷ function "gnutls_openpgp_crt_print" "gnutls_openpgp_crt_print"
        ("gnutls_openpgp_crt_t" ∷ "gnutls_certificate_print_formats_t" ∷ "POINTER(gnutls_datum_t)"
          ∷ [])
        c_int none
    ∷ function "gnutls_openpgp_crt_set_preferred_key_id" "gnutls_openpgp_crt_set_preferred_key_id"
        ("gnutls_openpgp_crt_t" ∷ "POINTER(c_ubyte)" ∷ []) c_int none
    ∷ function "gnutls_openpgp_crt_verify_ring" "gnutls_openpgp_crt_verify_ring"
        ("gnutls_openpgp_crt_t" ∷ "gnutls_openpgp_keyring_t" ∷ "c_uint" ∷ "POINTER(c_uint)" ∷ [])
        c_int none
    ∷ function "gnutls_openpgp_crt_verify_self" "gnutls_openpgp_crt_verify_self"
        ("gnutls_openpgp_crt_t" ∷ "c_uint" ∷ "POINTER(c_uint)" ∷ []) c_int none
    ∷ function "gnutls_openpgp_keyring_check_id" "gnutls_openpgp_keyring_check_id"
        ("gnutls_openpgp_keyring_t" ∷ "POINTER(c_ubyte)" ∷ "c_uint" ∷ []) c_int none
    ∷ function "gnutls_openpgp_keyring_deinit" "gnutls_openpgp_keyring_deinit"
        ("gnutls_openpgp_keyring_t" ∷ []) nothing none
    ∷ function "gnutls_openpgp_keyring_get_crt" "gnutls_openpgp_keyring_get_crt"
        ("gnutls_openpgp_keyring_t" ∷ "c_uint" ∷ "POINTER(gnutls_openpgp_crt_t)" ∷ []) c_int none
    ∷ function "gnutls_openpgp_keyring_get_crt_count" "gnutls_openpgp_keyring_get_crt_count"
        ("gnutls_openpgp_keyring_t" ∷ []) c_int none
    ∷ function "gnutls_openpgp_keyring_import" "gnutls_openpgp_keyring_import"
        ("gnutls_openpgp_keyring_t" ∷ "POINTER(gnutls_datum_t)" ∷ "gnutls_openpgp_crt_fmt_t" ∷ [])
        c_int none
    ∷ function "gnutls_openpgp_keyring_init" "gnutls_openpgp_keyring_init"
        ("POINTER(gnutls_openpgp_keyring_t)" ∷ []) c_int none
    ∷ function "gnutls_openpgp_privkey_deinit" "gnutls_openpgp_privkey_deinit"
        ("gnutls_openpgp_privkey_t" ∷ []) nothing none
    ∷ function "gnutls_openpgp_privkey_export" "gnutls_openpgp_privkey_export"
        ("gnutls_openpgp_privkey_t" ∷ "gnutls_openpgp_crt_fmt_t" ∷ "c_char_p" ∷ "c_uint"
          ∷ "c_void_p" ∷ "POINTER(size_t)" ∷ [])
        c_int none
    ∷ function "gnutls_openpgp_privkey_export_dsa_raw" "gnutls_openpgp_privkey_export_dsa_raw"
        ("gnutls_openpgp_privkey_t" ∷ "POINTER(gnutls_datum_t)" ∷ "POINTER(gnutls_datum_t)"
          ∷ "POINTER(gnutls_datum_t)" ∷ "POINTER(gnutls_datum_t)" ∷ "POINTER(gnutls_datum_t)" ∷ [])
        c_int none
    ∷ function "gnutls_openpgp_privkey_export_rsa_raw" "gnutls_openpgp_privkey_export_rsa_raw"
        ("gnutls_openpgp_privkey_t" ∷ "POINTER(gnutls_datum_t)" ∷ "POINTER(gnutls_datum_t)"
          ∷ "POINTER(gnutls_datum_t)" ∷ "POINTER(gnutls_datum_t)" ∷ "POINTER(gnutls_datum_t)"
          ∷ "POINTER(gnutls_datum_t)" ∷ [])
        c_int none
    ∷ function "gnutls_openpgp_privkey_export_subkey_dsa_raw"
        "gnutls_openpgp_privkey_export_subkey_dsa_raw"
        ("gnutls_openpgp_privkey_t" ∷ "c_uint" ∷ "POINTER(gnutls_datum_t)"
          ∷ "POINTER(gnutls_datum_t)" ∷ "POINTER(gnutls_datum_t)" ∷ "POINTER(gnutls_datum_t)"
          ∷ "POINTER(gnutls_datum_t)" ∷ [])
        c_int none
    ∷ function "gnutls_openpgp_privkey_export_subkey_rsa_raw"
        "gnutls_openpgp_privkey_export_subkey_rsa_raw"
        ("gnutls_openpgp_privkey_t" ∷ "c_uint" ∷ "POINTER(gnutls_datum_t)"
          ∷ "POINTER(gnutls_datum_t)" ∷ "POINTER(gnutls_datum_t)" ∷ "POINTER(gnutls_datum_t)"
          ∷ "POINTER(gnutls_datum_t)" ∷ "POINTER(gnutls_datum_t)" ∷ [])
        c_int none
    ∷ []

abbrev pub from_openpgp_privkey_get_fingerprint : List Binding
from_openpgp_privkey_get_fingerprint =
    function "gnutls_openpgp_privkey_get_fingerprint" "gnutls_openpgp_privkey_get_fingerprint"
      ("gnutls_openpgp_privkey_t" ∷ "c_void_p" ∷ "POINTER(size_t)" ∷ []) c_int none
    ∷ function "gnutls_openpgp_privkey_get_key_id" "gnutls_openpgp_privkey_get_key_id"
        ("gnutls_openpgp_privkey_t" ∷ "POINTER(c_ubyte)" ∷ []) c_int none
    ∷ function "gnutls_openpgp_privkey_get_pk_algorithm" "gnutls_openpgp_privkey_get_pk_algorithm"
        ("gnutls_openpgp_privkey_t" ∷ "POINTER(c_uint)" ∷ []) (enum "gnutls_pk_algorithm_t") none
    ∷ function "gnutls_openpgp_privkey_get_preferred_key_id"
        "gnutls_openpgp_privkey_get_preferred_key_id"
        ("gnutls_openpgp_privkey_t" ∷ "POINTER(c_ubyte)" ∷ []) c_int none
    ∷ function "gnutls_openpgp_privkey_get_revoked_status"
        "gnutls_openpgp_privkey_get_revoked_status" ("gnutls_openpgp_privkey_t" ∷ []) c_int none
    ∷ function "gnutls_openpgp_privkey_get_subkey_count" "gnutls_openpgp_privkey_get_subkey_count"
        ("gnutls_openpgp_privkey_t" ∷ []) c_int none
    ∷ function "gnutls_openpgp_privkey_get_subkey_creation_time"
        "gnutls_openpgp_privkey_get_subkey_creation_time"
        ("gnutls_openpgp_privkey_t" ∷ "c_uint" ∷ []) time_t
        (some "cannot get OpenPGP subkey creation time")
    ∷ function "gnutls_openpgp_privkey_get_subkey_expiration_time"
        "gnutls_openpgp_privkey_get_subkey_expiration_time"
        ("gnutls_openpgp_privkey_t" ∷ "c_uint" ∷ []) time_t
        (some "cannot get OpenPGP subkey expiration time")
    ∷ function "gnutls_openpgp_privkey_get_subkey_fingerprint"
        "gnutls_openpgp_privkey_get_subkey_fingerprint"
        ("gnutls_openpgp_privkey_t" ∷ "c_uint" ∷ "c_void_p" ∷ "POINTER(size_t)" ∷ []) c_int none
    ∷ function "gnutls_openpgp_privkey_get_subkey_id" "gnutls_openpgp_privkey_get_subkey_id"
        ("gnutls_openpgp_privkey_t" ∷ "c_uint" ∷ "POINTER(c_ubyte)" ∷ []) c_int none
    ∷ function "gnutls_openpgp_privkey_get_subkey_idx" "gnutls_openpgp_privkey_get_subkey_idx"
        ("gnutls_openpgp_privkey_t" ∷ "POINTER(c_ubyte)" ∷ []) c_int none
    ∷ function "gnutls_openpgp_privkey_get_subkey_pk_algorithm"
        "gnutls_openpgp_privkey_get_subkey_pk_algorithm"
        ("gnutls_openpgp_privkey_t" ∷ "c_uint" ∷ "POINTER(c_uint)" ∷ [])
        (enum "gnutls_pk_algorithm_t") none
    ∷ function "gnutls_openpgp_privkey_get_subkey_revoked_status"
        "gnutls_openpgp_privkey_get_subkey_revoked_status"
        ("gnutls_openpgp_privkey_t" ∷ "c_uint" ∷ []) c_int none
    ∷ function "gnutls_openpgp_privkey_import" "gnutls_openpgp_privkey_import"
        ("gnutls_openpgp_privkey_t" ∷ "POINTER(gnutls_datum_t)" ∷ "gnutls_openpgp_crt_fmt_t"
          ∷ "c_char_p" ∷ "c_uint" ∷ [])
        c_int none
    ∷ function "gnutls_openpgp_privkey_init" "gnutls_openpgp_privkey_init"
        ("POINTER(gnutls_openpgp_privkey_t)" ∷ []) c_int none
    ∷ function "gnutls_openpgp_privkey_set_preferred_key_id"
        "gnutls_openpgp_privkey_set_preferred_key_id"
        ("gnutls_openpgp_privkey_t" ∷ "POINTER(c_ubyte)" ∷ []) c_int none
    ∷ function "gnutls_openpgp_send_cert" "gnutls_openpgp_send_cert"
        ("gnutls_session_t" ∷ "gnutls_openpgp_crt_status_t" ∷ []) nothing none
    ∷ []
