-- ===== src/Bindings/CertificateTypeList.antt =====
-- gnutls/library/functions.py, from `gnutls_certificate_type_list` to `gnutls_kx_get`.
use python3_gnutls.Prelude.{none, List, [], ◌∷◌}
use python3_gnutls.Bindings.Entry.{
  c_int, c_char_p, c_void_p, size_t, nothing, enum, pointer, Binding, function,
}

abbrev pub from_certificate_type_list : List Binding
from_certificate_type_list =
    function "gnutls_certificate_type_list" "gnutls_certificate_type_list" ([])
      (pointer "gnutls_certificate_type_t") none
    ∷ function "gnutls_certificate_verify_peers2" "gnutls_certificate_verify_peers2"
        ("gnutls_session_t" ∷ "POINTER(c_uint)" ∷ []) c_int none
    ∷ function "gnutls_certificate_verify_peers3" "gnutls_certificate_verify_peers3"
        ("gnutls_session_t" ∷ "c_char_p" ∷ "POINTER(c_uint)" ∷ []) c_int none
    ∷ function "gnutls_check_version" "gnutls_check_version" ("c_char_p" ∷ []) c_char_p none
    ∷ function "gnutls_cipher_get" "gnutls_cipher_get" ("gnutls_session_t" ∷ [])
        (enum "gnutls_cipher_algorithm_t") none
    ∷ function "gnutls_cipher_get_id" "gnutls_cipher_get_id" ("c_char_p" ∷ [])
        (enum "gnutls_cipher_algorithm_t") none
    ∷ function "gnutls_cipher_get_key_size" "gnutls_cipher_get_key_size"
        ("gnutls_cipher_algorithm_t" ∷ []) size_t none
    ∷ function "gnutls_cipher_get_name" "gnutls_cipher_get_name" ("gnutls_cipher_algorithm_t" ∷ [])
        c_char_p none
    ∷ function "gnutls_cipher_list" "gnutls_cipher_list" ([]) (pointer "gnutls_cipher_algorithm_t")
        none
    ∷ function "gnutls_cipher_suite_get_name" "gnutls_cipher_suite_get_name"
        ("gnutls_kx_algorithm_t" ∷ "gnutls_cipher_algorithm_t" ∷ "gnutls_mac_algorithm_t" ∷ [])
        c_char_p none
    ∷ function "gnutls_cipher_suite_info" "gnutls_cipher_suite_info"
        ("size_t" ∷ "c_char_p" ∷ "POINTER(gnutls_kx_algorithm_t)"
          ∷ "POINTER(gnutls_cipher_algorithm_t)" ∷ "POINTER(gnutls_mac_algorithm_t)"
          ∷ "POINTER(gnutls_protocol_t)" ∷ [])
        c_char_p none
    ∷ function "gnutls_compression_get" "gnutls_compression_get" ("gnutls_session_t" ∷ [])
        (enum "gnutls_compression_method_t") none
    ∷ function "gnutls_compression_get_id" "gnutls_compression_get_id" ("c_char_p" ∷ [])
        (enum "gnutls_compression_method_t") none
    ∷ function "gnutls_compression_get_name" "gnutls_compression_get_name"
        ("gnutls_compression_method_t" ∷ []) c_char_p none
    ∷ function "gnutls_compression_list" "gnutls_compression_list" ([])
        (pointer "gnutls_compression_method_t") none
    ∷ function "gnutls_credentials_clear" "gnutls_credentials_clear" ("gnutls_session_t" ∷ [])
        nothing none
    ∷ function "gnutls_credentials_set" "gnutls_credentials_set"
        ("gnutls_session_t" ∷ "gnutls_credentials_type_t" ∷ "c_void_p" ∷ []) c_int none
    ∷ function "gnutls_db_check_entry" "gnutls_db_check_entry"
        ("gnutls_session_t" ∷ "gnutls_datum_t" ∷ []) c_int none
    ∷ function "gnutls_db_get_ptr" "gnutls_db_get_ptr" ("gnutls_session_t" ∷ []) c_void_p none
    ∷ function "gnutls_db_remove_session" "gnutls_db_remove_session" ("gnutls_session_t" ∷ [])
        nothing none
    ∷ function "gnutls_db_set_cache_expiration" "gnutls_db_set_cache_expiration"
        ("gnutls_session_t" ∷ "c_int" ∷ []) nothing none
    ∷ function "gnutls_db_set_ptr" "gnutls_db_set_ptr" ("gnutls_session_t" ∷ "c_void_p" ∷ [])
        nothing none
    ∷ function "gnutls_db_set_remove_function" "gnutls_db_set_remove_function"
        ("gnutls_session_t" ∷ "gnutls_db_remove_func" ∷ []) nothing none
    ∷ function "gnutls_db_set_retrieve_function" "gnutls_db_set_retrieve_function"
        ("gnutls_session_t" ∷ "gnutls_db_retr_func" ∷ []) nothing none
    ∷ function "gnutls_db_set_store_function" "gnutls_db_set_store_function"
        ("gnutls_session_t" ∷ "gnutls_db_store_func" ∷ []) nothing none
    ∷ function "gnutls_deinit" "gnutls_deinit" ("gnutls_session_t" ∷ []) nothing none
    ∷ function "gnutls_dh_get_group" "gnutls_dh_get_group"
        ("gnutls_session_t" ∷ "POINTER(gnutls_datum_t)" ∷ "POINTER(gnutls_datum_t)" ∷ []) c_int none
    ∷ function "gnutls_dh_get_peers_public_bits" "gnutls_dh_get_peers_public_bits"
        ("gnutls_session_t" ∷ []) c_int none
    ∷ function "gnutls_dh_get_prime_bits" "gnutls_dh_get_prime_bits" ("gnutls_session_t" ∷ []) c_int
        none
    ∷ function "gnutls_dh_get_pubkey" "gnutls_dh_get_pubkey"
        ("gnutls_session_t" ∷ "POINTER(gnutls_datum_t)" ∷ []) c_int none
    ∷ function "gnutls_dh_get_secret_bits" "gnutls_dh_get_secret_bits" ("gnutls_session_t" ∷ [])
        c_int none
    ∷ function "gnutls_dh_params_cpy" "gnutls_dh_params_cpy"
        ("gnutls_dh_params_t" ∷ "gnutls_dh_params_t" ∷ []) c_int none
    ∷ []

abbrev pub from_dh_params_deinit : List Binding
from_dh_params_deinit =
    function "gnutls_dh_params_deinit" "gnutls_dh_params_deinit" ("gnutls_dh_params_t" ∷ []) nothing
      none
    ∷ function "gnutls_dh_params_export_pkcs3" "gnutls_dh_params_export_pkcs3"
        ("gnutls_dh_params_t" ∷ "gnutls_x509_crt_fmt_t" ∷ "POINTER(c_ubyte)" ∷ "POINTER(size_t)"
          ∷ [])
        c_int none
    ∷ function "gnutls_dh_params_export_raw" "gnutls_dh_params_export_raw"
        ("gnutls_dh_params_t" ∷ "POINTER(gnutls_datum_t)" ∷ "POINTER(gnutls_datum_t)"
          ∷ "POINTER(c_uint)" ∷ [])
        c_int none
    ∷ function "gnutls_dh_params_generate2" "gnutls_dh_params_generate2"
        ("gnutls_dh_params_t" ∷ "c_uint" ∷ []) c_int none
    ∷ function "gnutls_dh_params_import_pkcs3" "gnutls_dh_params_import_pkcs3"
        ("gnutls_dh_params_t" ∷ "POINTER(gnutls_datum_t)" ∷ "gnutls_x509_crt_fmt_t" ∷ []) c_int none
    ∷ function "gnutls_dh_params_import_raw" "gnutls_dh_params_import_raw"
        ("gnutls_dh_params_t" ∷ "POINTER(gnutls_datum_t)" ∷ "POINTER(gnutls_datum_t)" ∷ []) c_int
        none
    ∷ function "gnutls_dh_params_init" "gnutls_dh_params_init" ("POINTER(gnutls_dh_params_t)" ∷ [])
        c_int none
    ∷ function "gnutls_dh_set_prime_bits" "gnutls_dh_set_prime_bits"
        ("gnutls_session_t" ∷ "c_uint" ∷ []) nothing none
    ∷ function "gnutls_error_is_fatal" "gnutls_error_is_fatal" ("c_int" ∷ []) c_int none
    ∷ function "gnutls_error_to_alert" "gnutls_error_to_alert" ("c_int" ∷ "POINTER(c_int)" ∷ [])
        c_int none
    ∷ function "gnutls_fingerprint" "gnutls_fingerprint"
        ("gnutls_digest_algorithm_t" ∷ "POINTER(gnutls_datum_t)" ∷ "c_void_p" ∷ "POINTER(size_t)"
          ∷ [])
        c_int none
    ∷ function "gnutls_global_deinit" "gnutls_global_deinit" ([]) nothing none
    ∷ function "gnutls_global_init" "gnutls_global_init" ([]) c_int none
    ∷ function "gnutls_global_set_log_function" "gnutls_global_set_log_function"
        ("gnutls_log_func" ∷ []) nothing none
    ∷ function "gnutls_global_set_log_level" "gnutls_global_set_log_level" ("c_int" ∷ []) nothing
        none
    ∷ function "gnutls_global_set_mem_functions" "gnutls_global_set_mem_functions"
        ("gnutls_alloc_function" ∷ "gnutls_alloc_function" ∷ "gnutls_is_secure_function"
          ∷ "gnutls_realloc_function" ∷ "gnutls_free_function" ∷ [])
        nothing none
    ∷ function "gnutls_handshake" "gnutls_handshake" ("gnutls_session_t" ∷ []) c_int none
    ∷ function "gnutls_handshake_get_last_in" "gnutls_handshake_get_last_in"
        ("gnutls_session_t" ∷ []) (enum "gnutls_handshake_description_t") none
    ∷ function "gnutls_handshake_get_last_out" "gnutls_handshake_get_last_out"
        ("gnutls_session_t" ∷ []) (enum "gnutls_handshake_description_t") none
    ∷ function "gnutls_handshake_set_max_packet_length" "gnutls_handshake_set_max_packet_length"
        ("gnutls_session_t" ∷ "size_t" ∷ []) nothing none
    ∷ function "gnutls_handshake_set_post_client_hello_function"
        "gnutls_handshake_set_post_client_hello_function"
        ("gnutls_session_t" ∷ "gnutls_handshake_post_client_hello_func" ∷ []) nothing none
    ∷ function "gnutls_handshake_set_private_extensions" "gnutls_handshake_set_private_extensions"
        ("gnutls_session_t" ∷ "c_int" ∷ []) nothing none
    ∷ function "gnutls_hex2bin" "gnutls_hex2bin"
        ("c_char_p" ∷ "size_t" ∷ "c_char_p" ∷ "POINTER(size_t)" ∷ []) c_int none
    ∷ function "gnutls_hex_decode" "gnutls_hex_decode"
        ("POINTER(gnutls_datum_t)" ∷ "c_char_p" ∷ "POINTER(size_t)" ∷ []) c_int none
    ∷ function "gnutls_hex_encode" "gnutls_hex_encode"
        ("POINTER(gnutls_datum_t)" ∷ "c_char_p" ∷ "POINTER(size_t)" ∷ []) c_int none
    ∷ function "gnutls_hex_encode2" "gnutls_hex_encode2"
        ("POINTER(gnutls_datum_t)" ∷ "POINTER(gnutls_datum_t)" ∷ []) c_int none
    ∷ function "gnutls_init" "gnutls_init"
        ("POINTER(gnutls_session_t)" ∷ "gnutls_connection_end_t" ∷ []) c_int none
    ∷ function "gnutls_kx_get" "gnutls_kx_get" ("gnutls_session_t" ∷ [])
        (enum "gnutls_kx_algorithm_t") none
    ∷ []
