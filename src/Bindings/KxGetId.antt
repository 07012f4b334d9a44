-- ===== src/Bindings/KxGetId.antt =====
-- gnutls/library/functions.py, from `gnutls_kx_get_id` to `gnutls_privkey_sign_data`.
use python3_gnutls.Prelude.{none, List, [], ◌∷◌}
use python3_gnutls.Bindings.Entry.{
  c_int, c_char_p, size_t, nothing, enum, pointer, Binding, function,
}

abbrev pub from_kx_get_id : List Binding
from_kx_get_id =
    function "gnutls_kx_get_id" "gnutls_kx_get_id" ("c_char_p" ∷ []) (enum "gnutls_kx_algorithm_t")
      none
    ∷ function "gnutls_kx_get_name" "gnutls_kx_get_name" ("gnutls_kx_algorithm_t" ∷ []) c_char_p
        none
    ∷ function "gnutls_kx_list" "gnutls_kx_list" ([]) (pointer "gnutls_kx_algorithm_t") none
    ∷ function "gnutls_mac_get" "gnutls_mac_get" ("gnutls_session_t" ∷ [])
        (enum "gnutls_mac_algorithm_t") none
    ∷ function "gnutls_mac_get_id" "gnutls_mac_get_id" ("c_char_p" ∷ [])
        (enum "gnutls_mac_algorithm_t") none
    ∷ function "gnutls_mac_get_key_size" "gnutls_mac_get_key_size" ("gnutls_mac_algorithm_t" ∷ [])
        size_t none
    ∷ function "gnutls_mac_get_name" "gnutls_mac_get_name" ("gnutls_mac_algorithm_t" ∷ []) c_char_p
        none
    ∷ function "gnutls_mac_list" "gnutls_mac_list" ([]) (pointer "gnutls_mac_algorithm_t") none
    ∷ function "gnutls_pem_base64_decode" "gnutls_pem_base64_decode"
        ("c_char_p" ∷ "POINTER(gnutls_datum_t)" ∷ "POINTER(c_ubyte)" ∷ "POINTER(size_t)" ∷ []) c_int
        none
    ∷ function "gnutls_pem_base64_encode" "gnutls_pem_base64_encode"
        ("c_char_p" ∷ "POINTER(gnutls_datum_t)" ∷ "c_char_p" ∷ "POINTER(size_t)" ∷ []) c_int none
    ∷ function "gnutls_perror" "gnutls_perror" ("c_int" ∷ []) nothing none
    ∷ function "gnutls_pk_algorithm_get_name" "gnutls_pk_algorithm_get_name"
        ("gnutls_pk_algorithm_t" ∷ []) c_char_p none
    ∷ function "gnutls_pkcs7_deinit" "gnutls_pkcs7_deinit" ("gnutls_pkcs7_t" ∷ []) nothing none
    ∷ function "gnutls_pkcs7_delete_crl" "gnutls_pkcs7_delete_crl" ("gnutls_pkcs7_t" ∷ "c_int" ∷ [])
        c_int none
    ∷ function "gnutls_pkcs7_delete_crt" "gnutls_pkcs7_delete_crt" ("gnutls_pkcs7_t" ∷ "c_int" ∷ [])
        c_int none
    ∷ function "gnutls_pkcs7_export" "gnutls_pkcs7_export"
        ("gnutls_pkcs7_t" ∷ "gnutls_x509_crt_fmt_t" ∷ "c_void_p" ∷ "POINTER(size_t)" ∷ []) c_int
        none
    ∷ function "gnutls_pkcs7_get_signature_count" "gnutls_pkcs7_get_signature_count"
        ("gnutls_pkcs7_t" ∷ []) c_int none
    ∷ function "gnutls_pkcs7_get_crl_count" "gnutls_pkcs7_get_crl_count" ("gnutls_pkcs7_t" ∷ [])
        c_int none
    ∷ function "gnutls_pkcs7_get_crl_raw" "gnutls_pkcs7_get_crl_raw"
        ("gnutls_pkcs7_t" ∷ "c_int" ∷ "c_void_p" ∷ "POINTER(size_t)" ∷ []) c_int none
    ∷ function "gnutls_pkcs7_get_crt_count" "gnutls_pkcs7_get_crt_count" ("gnutls_pkcs7_t" ∷ [])
        c_int none
    ∷ function "gnutls_pkcs7_get_crt_raw" "gnutls_pkcs7_get_crt_raw"
        ("gnutls_pkcs7_t" ∷ "c_int" ∷ "c_void_p" ∷ "POINTER(size_t)" ∷ []) c_int none
    ∷ function "gnutls_pkcs7_import" "gnutls_pkcs7_import"
        ("gnutls_pkcs7_t" ∷ "POINTER(gnutls_datum_t)" ∷ "gnutls_x509_crt_fmt_t" ∷ []) c_int none
    ∷ function "gnutls_pkcs7_init" "gnutls_pkcs7_init" ("POINTER(gnutls_pkcs7_t)" ∷ []) c_int none
    ∷ function "gnutls_pkcs7_set_crl" "gnutls_pkcs7_set_crl"
        ("gnutls_pkcs7_t" ∷ "gnutls_x509_crl_t" ∷ []) c_int none
    ∷ function "gnutls_pkcs7_set_crl_raw" "gnutls_pkcs7_set_crl_raw"
        ("gnutls_pkcs7_t" ∷ "POINTER(gnutls_datum_t)" ∷ []) c_int none
    ∷ function "gnutls_pkcs7_set_crt" "gnutls_pkcs7_set_crt"
        ("gnutls_pkcs7_t" ∷ "gnutls_x509_crt_t" ∷ []) c_int none
    ∷ function "gnutls_pkcs7_set_crt_raw" "gnutls_pkcs7_set_crt_raw"
        ("gnutls_pkcs7_t" ∷ "POINTER(gnutls_datum_t)" ∷ []) c_int none
    ∷ function "gnutls_pkcs7_sign" "gnutls_pkcs7_sign"
        ("gnutls_pkcs7_t" ∷ "gnutls_x509_crt_t" ∷ "gnutls_privkey_t" ∷ "POINTER(gnutls_datum_t)"
          ∷ "gnutls_pkcs7_attrs_t" ∷ "gnutls_pkcs7_attrs_t" ∷ "gnutls_digest_algorithm_t" ∷ "c_uint"
          ∷ [])
        c_int none
    ∷ function "gnutls_pkcs7_verify_direct" "gnutls_pkcs7_verify_direct"
        ("gnutls_pkcs7_t" ∷ "gnutls_x509_crt_t" ∷ "c_uint" ∷ "POINTER(gnutls_datum_t)" ∷ "c_uint"
          ∷ [])
        c_int none
    ∷ []

abbrev pub from_pkcs7_verify : List Binding
from_pkcs7_verify =
    function "gnutls_pkcs7_verify" "gnutls_pkcs7_verify"
      ("gnutls_pkcs7_t" ∷ "gnutls_x509_trust_list_t" ∷ "POINTER(gnutls_typed_vdata_st)" ∷ "c_uint"
        ∷ "c_uint" ∷ "POINTER(gnutls_datum_t)" ∷ "c_uint" ∷ [])
      c_int none
    ∷ function "gnutls_pkcs7_get_signature_info" "gnutls_pkcs7_get_signature_info"
        ("gnutls_pkcs7_t" ∷ "c_uint" ∷ "POINTER(gnutls_pkcs7_signature_info_st)" ∷ []) c_int none
    ∷ function "gnutls_pkcs7_signature_info_deinit" "gnutls_pkcs7_signature_info_deinit"
        ("POINTER(gnutls_pkcs7_signature_info_st)" ∷ []) nothing none
    ∷ function "gnutls_prf" "gnutls_prf"
        ("gnutls_session_t" ∷ "size_t" ∷ "c_char_p" ∷ "c_int" ∷ "size_t" ∷ "c_char_p" ∷ "size_t"
          ∷ "c_char_p" ∷ [])
        c_int none
    ∷ function "gnutls_prf_raw" "gnutls_prf_raw"
        ("gnutls_session_t" ∷ "size_t" ∷ "c_char_p" ∷ "size_t" ∷ "c_char_p" ∷ "size_t" ∷ "c_char_p"
          ∷ [])
        c_int none
    ∷ function "gnutls_priority_deinit" "gnutls_priority_deinit" ("gnutls_priority_t" ∷ []) nothing
        none
    ∷ function "gnutls_priority_init" "gnutls_priority_init"
        ("POINTER(gnutls_priority_t)" ∷ "c_char_p" ∷ "POINTER(c_char_p)" ∷ []) c_int none
    ∷ function "gnutls_priority_set" "gnutls_priority_set"
        ("gnutls_session_t" ∷ "gnutls_priority_t" ∷ []) c_int none
    ∷ function "gnutls_priority_set_direct" "gnutls_priority_set_direct"
        ("gnutls_session_t" ∷ "c_char_p" ∷ "POINTER(c_char_p)" ∷ []) c_int none
    ∷ function "gnutls_privkey_decrypt_data" "gnutls_privkey_decrypt_data"
        ("gnutls_privkey_t" ∷ "c_int" ∷ "POINTER(gnutls_datum_t)" ∷ "POINTER(gnutls_datum_t)" ∷ [])
        c_int none
    ∷ function "gnutls_privkey_deinit" "gnutls_privkey_deinit" ("gnutls_privkey_t" ∷ []) nothing
        none
    ∷ function "gnutls_privkey_export_dsa_raw" "gnutls_privkey_export_dsa_raw"
        ("gnutls_privkey_t" ∷ "POINTER(gnutls_datum_t)" ∷ "POINTER(gnutls_datum_t)"
          ∷ "POINTER(gnutls_datum_t)" ∷ "POINTER(gnutls_datum_t)" ∷ "POINTER(gnutls_datum_t)" ∷ [])
        c_int none
    ∷ function "gnutls_privkey_export_rsa_raw" "gnutls_privkey_export_rsa_raw"
        ("gnutls_privkey_t" ∷ "POINTER(gnutls_datum_t)" ∷ "POINTER(gnutls_datum_t)"
          ∷ "POINTER(gnutls_datum_t)" ∷ "POINTER(gnutls_datum_t)" ∷ "POINTER(gnutls_datum_t)"
          ∷ "POINTER(gnutls_datum_t)" ∷ "POINTER(gnutls_datum_t)" ∷ "POINTER(gnutls_datum_t)" ∷ [])
        c_int none
    ∷ function "gnutls_privkey_generate" "gnutls_privkey_generate"
        ("gnutls_privkey_t" ∷ "gnutls_pk_algorithm_t" ∷ "c_uint" ∷ "c_uint" ∷ []) c_int none
    ∷ function "gnutls_privkey_get_pk_algorithm" "gnutls_privkey_get_pk_algorithm"
        ("gnutls_privkey_t" ∷ "POINTER(c_uint)" ∷ []) c_int none
    ∷ function "gnutls_privkey_import_tpm_url" "gnutls_privkey_import_tpm_url"
        ("gnutls_privkey_t" ∷ "c_char_p" ∷ "c_char_p" ∷ "c_char_p" ∷ "c_uint" ∷ []) c_int none
    ∷ function "gnutls_privkey_import_url" "gnutls_privkey_import_url"
        ("gnutls_privkey_t" ∷ "c_char_p" ∷ "c_uint" ∷ []) c_int none
    ∷ function "gnutls_privkey_init" "gnutls_privkey_init" ("POINTER(gnutls_privkey_t)" ∷ []) c_int
        none
    ∷ function "gnutls_privkey_sign_data" "gnutls_privkey_sign_data"
        ("gnutls_privkey_t" ∷ "gnutls_digest_algorithm_t" ∷ "c_uint" ∷ "POINTER(gnutls_datum_t)"
          ∷ "POINTER(gnutls_datum_t)" ∷ [])
        c_int none
    ∷ []
