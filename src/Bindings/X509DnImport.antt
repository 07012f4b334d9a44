-- ===== src/Bindings/X509DnImport.antt =====
-- gnutls/library/functions.py, from `gnutls_x509_dn_import` to `gnutls_aead_cipher_deinit`.
use python3_gnutls.Prelude.{none, List, [], ◌∷◌}
use python3_gnutls.Bindings.Entry.{c_int, c_uint, nothing, Binding, function, rebound}

abbrev pub from_x509_dn_import : List Binding
from_x509_dn_import =
    function "gnutls_x509_dn_import" "gnutls_x509_dn_import"
      ("gnutls_x509_dn_t" ∷ "POINTER(gnutls_datum_t)" ∷ []) c_int none
    ∷ function "gnutls_x509_dn_init" "gnutls_x509_dn_init" ("POINTER(gnutls_x509_dn_t)" ∷ []) c_int
        none
    ∷ function "gnutls_x509_dn_deinit" "gnutls_x509_dn_deinit" ("gnutls_x509_dn_t" ∷ []) c_int none
    ∷ function "gnutls_x509_dn_get_str" "gnutls_x509_dn_get_str"
        ("gnutls_x509_dn_t" ∷ "POINTER(gnutls_datum_t)" ∷ []) c_int none
    ∷ function "gnutls_x509_dn_get_str2" "gnutls_x509_dn_get_str2"
        ("gnutls_x509_dn_t" ∷ "POINTER(gnutls_datum_t)" ∷ "c_uint" ∷ []) c_int none
    ∷ function "gnutls_x509_dn_oid_known" "gnutls_x509_dn_oid_known" ("c_char_p" ∷ []) c_int none
    ∷ function "gnutls_x509_privkey_cpy" "gnutls_x509_privkey_cpy"
        ("gnutls_x509_privkey_t" ∷ "gnutls_x509_privkey_t" ∷ []) c_int none
    ∷ function "gnutls_x509_privkey_deinit" "gnutls_x509_privkey_deinit"
        ("gnutls_x509_privkey_t" ∷ []) nothing none
    ∷ function "gnutls_x509_privkey_export" "gnutls_x509_privkey_export"
        ("gnutls_x509_privkey_t" ∷ "gnutls_x509_crt_fmt_t" ∷ "c_void_p" ∷ "POINTER(size_t)" ∷ [])
        c_int none
    ∷ function "gnutls_x509_privkey_export_dsa_raw" "gnutls_x509_privkey_export_dsa_raw"
        ("gnutls_x509_privkey_t" ∷ "POINTER(gnutls_datum_t)" ∷ "POINTER(gnutls_datum_t)"
          ∷ "POINTER(gnutls_datum_t)" ∷ "POINTER(gnutls_datum_t)" ∷ "POINTER(gnutls_datum_t)" ∷ [])
        c_int none
    ∷ function "gnutls_x509_privkey_export_pkcs8" "gnutls_x509_privkey_export_pkcs8"
        ("gnutls_x509_privkey_t" ∷ "gnutls_x509_crt_fmt_t" ∷ "c_char_p" ∷ "c_uint" ∷ "c_void_p"
          ∷ "POINTER(size_t)" ∷ [])
        c_int none
    ∷ function "gnutls_x509_privkey_export_rsa_raw" "gnutls_x509_privkey_export_rsa_raw"
        ("gnutls_x509_privkey_t" ∷ "POINTER(gnutls_datum_t)" ∷ "POINTER(gnutls_datum_t)"
          ∷ "POINTER(gnutls_datum_t)" ∷ "POINTER(gnutls_datum_t)" ∷ "POINTER(gnutls_datum_t)"
          ∷ "POINTER(gnutls_datum_t)" ∷ [])
        c_int none
    ∷ function "gnutls_x509_privkey_fix" "gnutls_x509_privkey_fix" ("gnutls_x509_privkey_t" ∷ [])
        c_int none
    ∷ function "gnutls_x509_privkey_generate" "gnutls_x509_privkey_generate"
        ("gnutls_x509_privkey_t" ∷ "gnutls_pk_algorithm_t" ∷ "c_uint" ∷ "c_uint" ∷ []) c_int none
    ∷ function "gnutls_x509_privkey_get_key_id" "gnutls_x509_privkey_get_key_id"
        ("gnutls_x509_privkey_t" ∷ "c_uint" ∷ "POINTER(c_ubyte)" ∷ "POINTER(size_t)" ∷ []) c_int
        none
    ∷ function "gnutls_x509_privkey_get_pk_algorithm" "gnutls_x509_privkey_get_pk_algorithm"
        ("gnutls_x509_privkey_t" ∷ []) c_int none
    ∷ function "gnutls_x509_privkey_import" "gnutls_x509_privkey_import"
        ("gnutls_x509_privkey_t" ∷ "POINTER(gnutls_datum_t)" ∷ "gnutls_x509_crt_fmt_t" ∷ []) c_int
        none
    ∷ function "gnutls_x509_privkey_import_dsa_raw" "gnutls_x509_privkey_import_dsa_raw"
        ("gnutls_x509_privkey_t" ∷ "POINTER(gnutls_datum_t)" ∷ "POINTER(gnutls_datum_t)"
          ∷ "POINTER(gnutls_datum_t)" ∷ "POINTER(gnutls_datum_t)" ∷ "POINTER(gnutls_datum_t)" ∷ [])
        c_int none
    ∷ function "gnutls_x509_privkey_import_pkcs8" "gnutls_x509_privkey_import_pkcs8"
        ("gnutls_x509_privkey_t" ∷ "POINTER(gnutls_datum_t)" ∷ "gnutls_x509_crt_fmt_t" ∷ "c_char_p"
          ∷ "c_uint" ∷ [])
        c_int none
    ∷ function "gnutls_x509_privkey_import_rsa_raw" "gnutls_x509_privkey_import_rsa_raw"
        ("gnutls_x509_privkey_t" ∷ "POINTER(gnutls_datum_t)" ∷ "POINTER(gnutls_datum_t)"
          ∷ "POINTER(gnutls_datum_t)" ∷ "POINTER(gnutls_datum_t)" ∷ "POINTER(gnutls_datum_t)"
          ∷ "POINTER(gnutls_datum_t)" ∷ [])
        c_int none
    ∷ function "gnutls_x509_privkey_init" "gnutls_x509_privkey_init"
        ("POINTER(gnutls_x509_privkey_t)" ∷ []) c_int none
    ∷ []

abbrev pub from_x509_privkey_sign_data : List Binding
from_x509_privkey_sign_data =
    function "gnutls_x509_privkey_sign_data" "gnutls_x509_privkey_sign_data"
      ("gnutls_x509_privkey_t" ∷ "gnutls_digest_algorithm_t" ∷ "c_uint" ∷ "POINTER(gnutls_datum_t)"
        ∷ "c_void_p" ∷ "POINTER(size_t)" ∷ [])
      c_int none
    ∷ function "gnutls_x509_privkey_sign_hash" "gnutls_x509_privkey_sign_hash"
        ("gnutls_x509_privkey_t" ∷ "POINTER(gnutls_datum_t)" ∷ "POINTER(gnutls_datum_t)" ∷ []) c_int
        none
    ∷ function "gnutls_x509_trust_list_init" "gnutls_x509_trust_list_init"
        ("POINTER(gnutls_x509_trust_list_t)" ∷ "c_uint" ∷ []) c_int none
    ∷ function "gnutls_x509_trust_list_deinit" "gnutls_x509_trust_list_deinit"
        ("gnutls_x509_trust_list_t" ∷ "c_uint" ∷ []) nothing none
    ∷ function "gnutls_x509_trust_list_add_cas" "gnutls_x509_trust_list_add_cas"
        ("gnutls_x509_trust_list_t" ∷ "POINTER(gnutls_x509_crt_t)" ∷ "c_uint" ∷ "c_uint" ∷ []) c_int
        none
    ∷ function "gnutls_x509_trust_list_add_trust_mem" "gnutls_x509_trust_list_add_trust_mem"
        ("gnutls_x509_trust_list_t" ∷ "POINTER(gnutls_datum_t)" ∷ "POINTER(gnutls_datum_t)"
          ∷ "gnutls_x509_crt_fmt_t" ∷ "c_uint" ∷ "c_uint" ∷ [])
        c_int none
    ∷ function "gnutls_x509_rdn_get" "gnutls_x509_rdn_get"
        ("POINTER(gnutls_datum_t)" ∷ "c_char_p" ∷ "POINTER(size_t)" ∷ []) c_int none
    ∷ function "gnutls_x509_rdn_get_by_oid" "gnutls_x509_rdn_get_by_oid"
        ("POINTER(gnutls_datum_t)" ∷ "c_char_p" ∷ "c_int" ∷ "c_uint" ∷ "c_void_p"
          ∷ "POINTER(size_t)" ∷ [])
        c_int none
    ∷ function "gnutls_x509_rdn_get_oid" "gnutls_x509_rdn_get_oid"
        ("POINTER(gnutls_datum_t)" ∷ "c_int" ∷ "c_void_p" ∷ "POINTER(size_t)" ∷ []) c_int none
    ∷ function "gnutls_cipher_init" "gnutls_cipher_init"
        ("POINTER(gnutls_cipher_hd_t)" ∷ "gnutls_cipher_algorithm_t" ∷ "POINTER(gnutls_datum_t)"
          ∷ "POINTER(gnutls_datum_t)" ∷ [])
        c_int none
    ∷ function "gnutls_cipher_deinit" "gnutls_cipher_deinit" ("gnutls_cipher_hd_t" ∷ []) nothing
        none
    ∷ function "gnutls_cipher_decrypt" "gnutls_cipher_decrypt"
        ("gnutls_cipher_hd_t" ∷ "c_void_p" ∷ "size_t" ∷ []) c_int none
    ∷ function "gnutls_cipher_decrypt2" "gnutls_cipher_decrypt2"
        ("gnutls_cipher_hd_t" ∷ "c_void_p" ∷ "size_t" ∷ "c_void_p" ∷ "size_t" ∷ []) c_int none
    ∷ function "gnutls_cipher_encrypt" "gnutls_cipher_encrypt"
        ("gnutls_cipher_hd_t" ∷ "c_void_p" ∷ "size_t" ∷ []) c_int none
    ∷ function "gnutls_cipher_encrypt2" "gnutls_cipher_encrypt2"
        ("gnutls_cipher_hd_t" ∷ "c_void_p" ∷ "size_t" ∷ "c_void_p" ∷ "size_t" ∷ []) c_int none
    ∷ function "gnutls_cipher_add_auth" "gnutls_cipher_add_auth"
        ("gnutls_cipher_hd_t" ∷ "c_void_p" ∷ "size_t" ∷ []) c_int none
    ∷ function "gnutls_cipher_get_block_size" "gnutls_cipher_get_block_size"
        ("gnutls_cipher_algorithm_t" ∷ []) c_uint none
    ∷ function "gnutls_cipher_get_iv_size" "gnutls_cipher_get_iv_size"
        ("gnutls_cipher_algorithm_t" ∷ []) c_uint none
    ∷ rebound "gnutls_cipher_get_tag_size"
    ∷ function "gnutls_cipher_set_iv" "gnutls_cipher_set_iv"
        ("gnutls_cipher_hd_t" ∷ "c_void_p" ∷ "size_t" ∷ []) nothing none
    ∷ function "gnutls_cipher_tag" "gnutls_cipher_tag"
        ("gnutls_cipher_hd_t" ∷ "c_void_p" ∷ "size_t" ∷ []) c_int none
    ∷ function "gnutls_aead_cipher_init" "gnutls_aead_cipher_init"
        ("POINTER(gnutls_aead_cipher_hd_t)" ∷ "gnutls_cipher_algorithm_t"
          ∷ "POINTER(gnutls_datum_t)" ∷ [])
        c_int none
    ∷ function "gnutls_aead_cipher_deinit" "gnutls_aead_cipher_deinit"
        ("gnutls_aead_cipher_hd_t" ∷ []) nothing none
    ∷ []
