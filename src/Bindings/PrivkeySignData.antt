-- ===== src/Bindings/PrivkeySignData.antt =====
-- gnutls/library/functions.py, from `gnutls_privkey_sign_data` to `gnutls_server_name_set`.
use python3_gnutls.Prelude.{none, List, [], ◌∷◌}
use python3_gnutls.Bindings.Entry.{
  c_int, c_char_p, size_t, ssize_t, nothing, enum, pointer, Binding, function,
}

abbrev pub from_privkey_sign_data : List Binding
from_privkey_sign_data =
    function "gnutls_privkey_sign_data" "gnutls_privkey_sign_data"
      ("gnutls_privkey_t" ∷ "gnutls_digest_algorithm_t" ∷ "c_uint" ∷ "POINTER(gnutls_datum_t)"
        ∷ "POINTER(gnutls_datum_t)" ∷ [])
      c_int none
    ∷ function "gnutls_privkey_sign_hash" "gnutls_privkey_sign_hash"
        ("gnutls_privkey_t" ∷ "gnutls_digest_algorithm_t" ∷ "c_uint" ∷ "POINTER(gnutls_datum_t)"
          ∷ "POINTER(gnutls_datum_t)" ∷ [])
        c_int none
    ∷ function "gnutls_pubkey_encrypt_data" "gnutls_pubkey_encrypt_data"
        ("gnutls_pubkey_t" ∷ "c_int" ∷ "POINTER(gnutls_datum_t)" ∷ "POINTER(gnutls_datum_t)" ∷ [])
        c_int none
    ∷ function "gnutls_pubkey_export_dsa_raw" "gnutls_pubkey_export_rsa_raw"
        ("gnutls_pubkey_t" ∷ "POINTER(gnutls_datum_t)" ∷ "POINTER(gnutls_datum_t)"
          ∷ "POINTER(gnutls_datum_t)" ∷ "POINTER(gnutls_datum_t)" ∷ [])
        c_int none
    ∷ function "gnutls_pubkey_export_rsa_raw" "gnutls_pubkey_export_rsa_raw"
        ("gnutls_pubkey_t" ∷ "POINTER(gnutls_datum_t)" ∷ "POINTER(gnutls_datum_t)" ∷ []) c_int none
    ∷ function "gnutls_pubkey_get_pk_algorithm" "gnutls_pubkey_get_pk_algorithm"
        ("gnutls_pubkey_t" ∷ "POINTER(c_uint)" ∷ []) c_int none
    ∷ function "gnutls_pubkey_import_dsa_raw" "gnutls_pubkey_import_dsa_raw"
        ("gnutls_pubkey_t" ∷ "POINTER(gnutls_datum_t)" ∷ "POINTER(gnutls_datum_t)"
          ∷ "POINTER(gnutls_datum_t)" ∷ "POINTER(gnutls_datum_t)" ∷ [])
        c_int none
    ∷ function "gnutls_pubkey_import_rsa_raw" "gnutls_pubkey_import_rsa_raw"
        ("gnutls_pubkey_t" ∷ "POINTER(gnutls_datum_t)" ∷ "POINTER(gnutls_datum_t)" ∷ []) c_int none
    ∷ function "gnutls_pubkey_import_tpm_url" "gnutls_pubkey_import_tpm_url"
        ("gnutls_pubkey_t" ∷ "c_char_p" ∷ "c_char_p" ∷ "c_uint" ∷ []) c_int none
    ∷ function "gnutls_pubkey_import_url" "gnutls_pubkey_import_url"
        ("gnutls_pubkey_t" ∷ "c_char_p" ∷ "c_uint" ∷ []) c_int none
    ∷ function "gnutls_pubkey_init" "gnutls_pubkey_init" ("POINTER(gnutls_pubkey_t)" ∷ []) c_int
        none
    ∷ function "gnutls_pubkey_verify_data2" "gnutls_pubkey_verify_data2"
        ("gnutls_pubkey_t" ∷ "gnutls_sign_algorithm_t" ∷ "c_int" ∷ "POINTER(gnutls_datum_t)"
          ∷ "POINTER(gnutls_datum_t)" ∷ [])
        c_int none
    ∷ function "gnutls_pubkey_verify_hash2" "gnutls_pubkey_verify_hash2"
        ("gnutls_pubkey_t" ∷ "gnutls_sign_algorithm_t" ∷ "c_int" ∷ "POINTER(gnutls_datum_t)"
          ∷ "POINTER(gnutls_datum_t)" ∷ [])
        c_int none
    ∷ function "gnutls_privkey_import_x509" "gnutls_privkey_import_x509"
        ("gnutls_privkey_t" ∷ "gnutls_x509_privkey_t" ∷ "c_int" ∷ []) c_int none
    ∷ function "gnutls_protocol_get_id" "gnutls_protocol_get_id" ("c_char_p" ∷ [])
        (enum "gnutls_protocol_t") none
    ∷ function "gnutls_protocol_get_name" "gnutls_protocol_get_name" ("gnutls_protocol_t" ∷ [])
        c_char_p none
    ∷ function "gnutls_protocol_get_version" "gnutls_protocol_get_version" ("gnutls_session_t" ∷ [])
        (enum "gnutls_protocol_t") none
    ∷ function "gnutls_protocol_list" "gnutls_protocol_list" ([]) (pointer "gnutls_protocol_t") none
    ∷ function "gnutls_psk_allocate_client_credentials" "gnutls_psk_allocate_client_credentials"
        ("POINTER(gnutls_psk_client_credentials_t)" ∷ []) c_int none
    ∷ function "gnutls_psk_allocate_server_credentials" "gnutls_psk_allocate_server_credentials"
        ("POINTER(gnutls_psk_server_credentials_t)" ∷ []) c_int none
    ∷ function "gnutls_psk_client_get_hint" "gnutls_psk_client_get_hint" ("gnutls_session_t" ∷ [])
        c_char_p none
    ∷ function "gnutls_psk_free_client_credentials" "gnutls_psk_free_client_credentials"
        ("gnutls_psk_client_credentials_t" ∷ []) nothing none
    ∷ []

abbrev pub from_psk_free_server_credentials : List Binding
from_psk_free_server_credentials =
    function "gnutls_psk_free_server_credentials" "gnutls_psk_free_server_credentials"
      ("gnutls_psk_server_credentials_t" ∷ []) nothing none
    ∷ function "gnutls_psk_server_get_username" "gnutls_psk_server_get_username"
        ("gnutls_session_t" ∷ []) c_char_p none
    ∷ function "gnutls_psk_set_client_credentials" "gnutls_psk_set_client_credentials"
        ("gnutls_psk_client_credentials_t" ∷ "c_char_p" ∷ "POINTER(gnutls_datum_t)"
          ∷ "gnutls_psk_key_flags" ∷ [])
        c_int none
    ∷ function "gnutls_psk_set_client_credentials_function"
        "gnutls_psk_set_client_credentials_function"
        ("gnutls_psk_client_credentials_t" ∷ "gnutls_psk_client_credentials_function" ∷ []) nothing
        none
    ∷ function "gnutls_psk_set_params_function" "gnutls_psk_set_params_function"
        ("gnutls_psk_server_credentials_t" ∷ "gnutls_params_function" ∷ []) nothing none
    ∷ function "gnutls_psk_set_server_credentials_file" "gnutls_psk_set_server_credentials_file"
        ("gnutls_psk_server_credentials_t" ∷ "c_char_p" ∷ []) c_int none
    ∷ function "gnutls_psk_set_server_credentials_function"
        "gnutls_psk_set_server_credentials_function"
        ("gnutls_psk_server_credentials_t" ∷ "gnutls_psk_server_credentials_function" ∷ []) nothing
        none
    ∷ function "gnutls_psk_set_server_credentials_hint" "gnutls_psk_set_server_credentials_hint"
        ("gnutls_psk_server_credentials_t" ∷ "c_char_p" ∷ []) c_int none
    ∷ function "gnutls_psk_set_server_dh_params" "gnutls_psk_set_server_dh_params"
        ("gnutls_psk_server_credentials_t" ∷ "gnutls_dh_params_t" ∷ []) nothing none
    ∷ function "gnutls_psk_set_server_params_function" "gnutls_psk_set_server_params_function"
        ("gnutls_psk_server_credentials_t" ∷ "gnutls_params_function" ∷ []) nothing none
    ∷ function "gnutls_pubkey_deinit" "gnutls_pubkey_deinit" ("gnutls_pubkey_t" ∷ []) nothing none
    ∷ function "gnutls_pubkey_init" "gnutls_pubkey_init" ("POINTER(gnutls_pubkey_t)" ∷ []) c_int
        none
    ∷ function "gnutls_pubkey_import_x509" "gnutls_pubkey_import_x509"
        ("gnutls_pubkey_t" ∷ "gnutls_x509_crt_t" ∷ "c_int" ∷ []) c_int none
    ∷ function "gnutls_pubkey_get_preferred_hash_algorithm"
        "gnutls_pubkey_get_preferred_hash_algorithm"
        ("gnutls_pubkey_t" ∷ "POINTER(gnutls_digest_algorithm_t)" ∷ "POINTER(c_uint)" ∷ []) c_int
        none
    ∷ function "gnutls_record_check_pending" "gnutls_record_check_pending" ("gnutls_session_t" ∷ [])
        size_t none
    ∷ function "gnutls_record_disable_padding" "gnutls_record_disable_padding"
        ("gnutls_session_t" ∷ []) nothing none
    ∷ function "gnutls_record_get_direction" "gnutls_record_get_direction" ("gnutls_session_t" ∷ [])
        c_int none
    ∷ function "gnutls_record_get_max_size" "gnutls_record_get_max_size" ("gnutls_session_t" ∷ [])
        size_t none
    ∷ function "gnutls_record_recv" "gnutls_record_recv"
        ("gnutls_session_t" ∷ "c_void_p" ∷ "size_t" ∷ []) ssize_t none
    ∷ function "gnutls_record_send" "gnutls_record_send"
        ("gnutls_session_t" ∷ "c_void_p" ∷ "size_t" ∷ []) ssize_t none
    ∷ function "gnutls_record_set_max_size" "gnutls_record_set_max_size"
        ("gnutls_session_t" ∷ "size_t" ∷ []) ssize_t none
    ∷ function "gnutls_rehandshake" "gnutls_rehandshake" ("gnutls_session_t" ∷ []) c_int none
    ∷ function "gnutls_server_name_get" "gnutls_server_name_get"
        ("gnutls_session_t" ∷ "c_void_p" ∷ "POINTER(size_t)" ∷ "POINTER(c_uint)" ∷ "c_uint" ∷ [])
        c_int none
    ∷ function "gnutls_server_name_set" "gnutls_server_name_set"
        ("gnutls_session_t" ∷ "gnutls_server_name_type_t" ∷ "c_void_p" ∷ "size_t" ∷ []) c_int none
    ∷ []
