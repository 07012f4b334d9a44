-- ===== src/Bindings/X509CrqImport.antt =====
-- gnutls/library/functions.py, from `gnutls_x509_crq_import` to `gnutls_x509_crt_get_pk_rsa_raw`.
use python3_gnutls.Prelude.{none, some, List, [], ◌∷◌}
use python3_gnutls.Bindings.Entry.{c_int, time_t, nothing, Binding, function}

abbrev pub from_x509_crq_import : List Binding
from_x509_crq_import =
    function "gnutls_x509_crq_import" "gnutls_x509_crq_import"
      ("gnutls_x509_crq_t" ∷ "POINTER(gnutls_datum_t)" ∷ "gnutls_x509_crt_fmt_t" ∷ []) c_int none
    ∷ function "gnutls_x509_crq_init" "gnutls_x509_crq_init" ("POINTER(gnutls_x509_crq_t)" ∷ [])
        c_int none
    ∷ function "gnutls_x509_crq_set_attribute_by_oid" "gnutls_x509_crq_set_attribute_by_oid"
        ("gnutls_x509_crq_t" ∷ "c_char_p" ∷ "c_void_p" ∷ "size_t" ∷ []) c_int none
    ∷ function "gnutls_x509_crq_set_challenge_password" "gnutls_x509_crq_set_challenge_password"
        ("gnutls_x509_crq_t" ∷ "c_char_p" ∷ []) c_int none
    ∷ function "gnutls_x509_crq_set_dn_by_oid" "gnutls_x509_crq_set_dn_by_oid"
        ("gnutls_x509_crq_t" ∷ "c_char_p" ∷ "c_uint" ∷ "c_void_p" ∷ "c_uint" ∷ []) c_int none
    ∷ function "gnutls_x509_crq_set_key" "gnutls_x509_crq_set_key"
        ("gnutls_x509_crq_t" ∷ "gnutls_x509_privkey_t" ∷ []) c_int none
    ∷ function "gnutls_x509_crq_set_version" "gnutls_x509_crq_set_version"
        ("gnutls_x509_crq_t" ∷ "c_uint" ∷ []) c_int none
    ∷ function "gnutls_x509_crq_sign" "gnutls_x509_crq_sign"
        ("gnutls_x509_crq_t" ∷ "gnutls_x509_privkey_t" ∷ []) c_int none
    ∷ function "gnutls_x509_crq_sign2" "gnutls_x509_crq_sign2"
        ("gnutls_x509_crq_t" ∷ "gnutls_x509_privkey_t" ∷ "gnutls_digest_algorithm_t" ∷ "c_uint"
          ∷ [])
        c_int none
    ∷ function "gnutls_x509_crt_check_hostname" "gnutls_x509_crt_check_hostname"
        ("gnutls_x509_crt_t" ∷ "c_char_p" ∷ []) c_int none
    ∷ function "gnutls_x509_crt_check_issuer" "gnutls_x509_crt_check_issuer"
        ("gnutls_x509_crt_t" ∷ "gnutls_x509_crt_t" ∷ []) c_int none
    ∷ function "gnutls_x509_crt_check_revocation" "gnutls_x509_crt_check_revocation"
        ("gnutls_x509_crt_t" ∷ "POINTER(gnutls_x509_crl_t)" ∷ "c_int" ∷ []) c_int none
    ∷ function "gnutls_x509_crt_cpy_crl_dist_points" "gnutls_x509_crt_cpy_crl_dist_points"
        ("gnutls_x509_crt_t" ∷ "gnutls_x509_crt_t" ∷ []) c_int none
    ∷ function "gnutls_x509_crt_deinit" "gnutls_x509_crt_deinit" ("gnutls_x509_crt_t" ∷ []) nothing
        none
    ∷ function "gnutls_x509_crt_export" "gnutls_x509_crt_export"
        ("gnutls_x509_crt_t" ∷ "gnutls_x509_crt_fmt_t" ∷ "c_void_p" ∷ "POINTER(size_t)" ∷ []) c_int
        none
    ∷ function "gnutls_x509_crt_get_activation_time" "gnutls_x509_crt_get_activation_time"
        ("gnutls_x509_crt_t" ∷ []) time_t (some "cannot get X509 certificate activation time")
    ∷ function "gnutls_x509_crt_get_authority_key_id" "gnutls_x509_crt_get_authority_key_id"
        ("gnutls_x509_crt_t" ∷ "c_void_p" ∷ "POINTER(size_t)" ∷ "POINTER(c_uint)" ∷ []) c_int none
    ∷ function "gnutls_x509_crt_get_basic_constraints" "gnutls_x509_crt_get_basic_constraints"
        ("gnutls_x509_crt_t" ∷ "POINTER(c_uint)" ∷ "POINTER(c_int)" ∷ "POINTER(c_int)" ∷ []) c_int
        none
    ∷ function "gnutls_x509_crt_get_ca_status" "gnutls_x509_crt_get_ca_status"
        ("gnutls_x509_crt_t" ∷ "POINTER(c_uint)" ∷ []) c_int none
    ∷ function "gnutls_x509_crt_get_crl_dist_points" "gnutls_x509_crt_get_crl_dist_points"
        ("gnutls_x509_crt_t" ∷ "c_uint" ∷ "c_void_p" ∷ "POINTER(size_t)" ∷ "POINTER(c_uint)"
          ∷ "POINTER(c_uint)" ∷ [])
        c_int none
    ∷ function "gnutls_x509_crt_get_dn" "gnutls_x509_crt_get_dn"
        ("gnutls_x509_crt_t" ∷ "c_char_p" ∷ "POINTER(size_t)" ∷ []) c_int none
    ∷ function "gnutls_x509_crt_get_dn_by_oid" "gnutls_x509_crt_get_dn_by_oid"
        ("gnutls_x509_crt_t" ∷ "c_char_p" ∷ "c_int" ∷ "c_uint" ∷ "c_void_p" ∷ "POINTER(size_t)"
          ∷ [])
        c_int none
    ∷ []

abbrev pub from_x509_crt_get_dn_oid : List Binding
from_x509_crt_get_dn_oid =
    function "gnutls_x509_crt_get_dn_oid" "gnutls_x509_crt_get_dn_oid"
      ("gnutls_x509_crt_t" ∷ "c_int" ∷ "c_void_p" ∷ "POINTER(size_t)" ∷ []) c_int none
    ∷ function "gnutls_x509_crt_get_expiration_time" "gnutls_x509_crt_get_expiration_time"
        ("gnutls_x509_crt_t" ∷ []) time_t (some "cannot get X509 certificate expiration time")
    ∷ function "gnutls_x509_crt_get_extension_by_oid" "gnutls_x509_crt_get_extension_by_oid"
        ("gnutls_x509_crt_t" ∷ "c_char_p" ∷ "c_int" ∷ "c_void_p" ∷ "POINTER(size_t)"
          ∷ "POINTER(c_uint)" ∷ [])
        c_int none
    ∷ function "gnutls_x509_crt_get_extension_data" "gnutls_x509_crt_get_extension_data"
        ("gnutls_x509_crt_t" ∷ "c_int" ∷ "c_void_p" ∷ "POINTER(size_t)" ∷ []) c_int none
    ∷ function "gnutls_x509_crt_get_extension_info" "gnutls_x509_crt_get_extension_info"
        ("gnutls_x509_crt_t" ∷ "c_int" ∷ "c_void_p" ∷ "POINTER(size_t)" ∷ "POINTER(c_int)" ∷ [])
        c_int none
    ∷ function "gnutls_x509_crt_get_extension_oid" "gnutls_x509_crt_get_extension_oid"
        ("gnutls_x509_crt_t" ∷ "c_int" ∷ "c_void_p" ∷ "POINTER(size_t)" ∷ []) c_int none
    ∷ function "gnutls_x509_crt_get_fingerprint" "gnutls_x509_crt_get_fingerprint"
        ("gnutls_x509_crt_t" ∷ "gnutls_digest_algorithm_t" ∷ "c_void_p" ∷ "POINTER(size_t)" ∷ [])
        c_int none
    ∷ function "gnutls_x509_crt_get_issuer" "gnutls_x509_crt_get_issuer"
        ("gnutls_x509_crt_t" ∷ "POINTER(gnutls_x509_dn_t)" ∷ []) c_int none
    ∷ function "gnutls_x509_crt_get_issuer_dn" "gnutls_x509_crt_get_issuer_dn"
        ("gnutls_x509_crt_t" ∷ "c_char_p" ∷ "POINTER(size_t)" ∷ []) c_int none
    ∷ function "gnutls_x509_crt_get_issuer_dn_by_oid" "gnutls_x509_crt_get_issuer_dn_by_oid"
        ("gnutls_x509_crt_t" ∷ "c_char_p" ∷ "c_int" ∷ "c_uint" ∷ "c_void_p" ∷ "POINTER(size_t)"
          ∷ [])
        c_int none
    ∷ function "gnutls_x509_crt_get_issuer_dn_oid" "gnutls_x509_crt_get_issuer_dn_oid"
        ("gnutls_x509_crt_t" ∷ "c_int" ∷ "c_void_p" ∷ "POINTER(size_t)" ∷ []) c_int none
    ∷ function "gnutls_x509_crt_get_key_id" "gnutls_x509_crt_get_key_id"
        ("gnutls_x509_crt_t" ∷ "c_uint" ∷ "POINTER(c_ubyte)" ∷ "POINTER(size_t)" ∷ []) c_int none
    ∷ function "gnutls_x509_crt_get_key_purpose_oid" "gnutls_x509_crt_get_key_purpose_oid"
        ("gnutls_x509_crt_t" ∷ "c_int" ∷ "c_void_p" ∷ "POINTER(size_t)" ∷ "POINTER(c_uint)" ∷ [])
        c_int none
    ∷ function "gnutls_x509_crt_get_key_usage" "gnutls_x509_crt_get_key_usage"
        ("gnutls_x509_crt_t" ∷ "POINTER(c_uint)" ∷ "POINTER(c_uint)" ∷ []) c_int none
    ∷ function "gnutls_x509_crt_get_pk_algorithm" "gnutls_x509_crt_get_pk_algorithm"
        ("gnutls_x509_crt_t" ∷ "POINTER(c_uint)" ∷ []) c_int none
    ∷ function "gnutls_x509_crt_get_pk_dsa_raw" "gnutls_x509_crt_get_pk_dsa_raw"
        ("gnutls_x509_crt_t" ∷ "POINTER(gnutls_datum_t)" ∷ "POINTER(gnutls_datum_t)"
          ∷ "POINTER(gnutls_datum_t)" ∷ "POINTER(gnutls_datum_t)" ∷ [])
        c_int none
    ∷ function "gnutls_x509_crt_get_pk_rsa_raw" "gnutls_x509_crt_get_pk_rsa_raw"
        ("gnutls_x509_crt_t" ∷ "POINTER(gnutls_datum_t)" ∷ "POINTER(gnutls_datum_t)" ∷ []) c_int
        none
    ∷ []
