-- ===== src/Bindings/X509CrtGet.antt =====
-- gnutls/library/functions.py, from `gnutls_x509_crt_get_proxy` to `gnutls_x509_dn_get_rdn_ava`.
use python3_gnutls.Prelude.{none, List, [], ◌∷◌}
use python3_gnutls.Bindings.Entry.{c_int, nothing, Binding, function}

abbrev pub from_x509_crt_get_proxy : List Binding
from_x509_crt_get_proxy =
    function "gnutls_x509_crt_get_proxy" "gnutls_x509_crt_get_proxy"
      ("gnutls_x509_crt_t" ∷ "POINTER(c_uint)" ∷ "POINTER(c_int)" ∷ "POINTER(c_char_p)"
        ∷ "POINTER(c_char_p)" ∷ "POINTER(size_t)" ∷ [])
      c_int none
    ∷ function "gnutls_x509_crt_get_raw_dn" "gnutls_x509_crt_get_raw_dn"
        ("gnutls_x509_crt_t" ∷ "POINTER(gnutls_datum_t)" ∷ []) c_int none
    ∷ function "gnutls_x509_crt_get_raw_issuer_dn" "gnutls_x509_crt_get_raw_issuer_dn"
        ("gnutls_x509_crt_t" ∷ "POINTER(gnutls_datum_t)" ∷ []) c_int none
    ∷ function "gnutls_x509_crt_get_serial" "gnutls_x509_crt_get_serial"
        ("gnutls_x509_crt_t" ∷ "c_void_p" ∷ "POINTER(size_t)" ∷ []) c_int none
    ∷ function "gnutls_x509_crt_get_signature" "gnutls_x509_crt_get_signature"
        ("gnutls_x509_crt_t" ∷ "c_char_p" ∷ "POINTER(size_t)" ∷ []) c_int none
    ∷ function "gnutls_x509_crt_get_signature_algorithm" "gnutls_x509_crt_get_signature_algorithm"
        ("gnutls_x509_crt_t" ∷ []) c_int none
    ∷ function "gnutls_x509_crt_get_subject" "gnutls_x509_crt_get_subject"
        ("gnutls_x509_crt_t" ∷ "POINTER(gnutls_x509_dn_t)" ∷ []) c_int none
    ∷ function "gnutls_x509_crt_get_subject_alt_name" "gnutls_x509_crt_get_subject_alt_name"
        ("gnutls_x509_crt_t" ∷ "c_uint" ∷ "c_void_p" ∷ "POINTER(size_t)" ∷ "POINTER(c_uint)" ∷ [])
        c_int none
    ∷ function "gnutls_x509_crt_get_subject_alt_name2" "gnutls_x509_crt_get_subject_alt_name2"
        ("gnutls_x509_crt_t" ∷ "c_uint" ∷ "c_void_p" ∷ "POINTER(size_t)" ∷ "POINTER(c_uint)"
          ∷ "POINTER(c_uint)" ∷ [])
        c_int none
    ∷ function "gnutls_x509_crt_get_subject_alt_othername_oid"
        "gnutls_x509_crt_get_subject_alt_othername_oid"
        ("gnutls_x509_crt_t" ∷ "c_uint" ∷ "c_void_p" ∷ "POINTER(size_t)" ∷ []) c_int none
    ∷ function "gnutls_x509_crt_get_subject_key_id" "gnutls_x509_crt_get_subject_key_id"
        ("gnutls_x509_crt_t" ∷ "c_void_p" ∷ "POINTER(size_t)" ∷ "POINTER(c_uint)" ∷ []) c_int none
    ∷ function "gnutls_x509_crt_get_version" "gnutls_x509_crt_get_version"
        ("gnutls_x509_crt_t" ∷ []) c_int none
    ∷ function "gnutls_x509_crt_import" "gnutls_x509_crt_import"
        ("gnutls_x509_crt_t" ∷ "POINTER(gnutls_datum_t)" ∷ "gnutls_x509_crt_fmt_t" ∷ []) c_int none
    ∷ function "gnutls_x509_crt_init" "gnutls_x509_crt_init" ("POINTER(gnutls_x509_crt_t)" ∷ [])
        c_int none
    ∷ function "gnutls_x509_crt_list_import" "gnutls_x509_crt_list_import"
        ("POINTER(gnutls_x509_crt_t)" ∷ "POINTER(c_uint)" ∷ "POINTER(gnutls_datum_t)"
          ∷ "gnutls_x509_crt_fmt_t" ∷ "c_uint" ∷ [])
        c_int none
    ∷ function "gnutls_x509_crt_list_verify" "gnutls_x509_crt_list_verify"
        ("POINTER(gnutls_x509_crt_t)" ∷ "c_int" ∷ "POINTER(gnutls_x509_crt_t)" ∷ "c_int"
          ∷ "POINTER(gnutls_x509_crl_t)" ∷ "c_int" ∷ "c_uint" ∷ "POINTER(c_uint)" ∷ [])
        c_int none
    ∷ function "gnutls_x509_crt_print" "gnutls_x509_crt_print"
        ("gnutls_x509_crt_t" ∷ "gnutls_certificate_print_formats_t" ∷ "POINTER(gnutls_datum_t)"
          ∷ [])
        c_int none
    ∷ function "gnutls_x509_crt_set_activation_time" "gnutls_x509_crt_set_activation_time"
        ("gnutls_x509_crt_t" ∷ "time_t" ∷ []) c_int none
    ∷ function "gnutls_x509_crt_set_authority_key_id" "gnutls_x509_crt_set_authority_key_id"
        ("gnutls_x509_crt_t" ∷ "c_void_p" ∷ "size_t" ∷ []) c_int none
    ∷ function "gnutls_x509_crt_set_basic_constraints" "gnutls_x509_crt_set_basic_constraints"
        ("gnutls_x509_crt_t" ∷ "c_uint" ∷ "c_int" ∷ []) c_int none
    ∷ function "gnutls_x509_crt_set_ca_status" "gnutls_x509_crt_set_ca_status"
        ("gnutls_x509_crt_t" ∷ "c_uint" ∷ []) c_int none
    ∷ []

abbrev pub from_x509_crt_set_crl_dist_points : List Binding
from_x509_crt_set_crl_dist_points =
    function "gnutls_x509_crt_set_crl_dist_points" "gnutls_x509_crt_set_crl_dist_points"
      ("gnutls_x509_crt_t" ∷ "gnutls_x509_subject_alt_name_t" ∷ "c_void_p" ∷ "c_uint" ∷ []) c_int
      none
    ∷ function "gnutls_x509_crt_set_crq" "gnutls_x509_crt_set_crq"
        ("gnutls_x509_crt_t" ∷ "gnutls_x509_crq_t" ∷ []) c_int none
    ∷ function "gnutls_x509_crt_set_dn_by_oid" "gnutls_x509_crt_set_dn_by_oid"
        ("gnutls_x509_crt_t" ∷ "c_char_p" ∷ "c_uint" ∷ "c_void_p" ∷ "c_uint" ∷ []) c_int none
    ∷ function "gnutls_x509_crt_set_expiration_time" "gnutls_x509_crt_set_expiration_time"
        ("gnutls_x509_crt_t" ∷ "time_t" ∷ []) c_int none
    ∷ function "gnutls_x509_crt_set_extension_by_oid" "gnutls_x509_crt_set_extension_by_oid"
        ("gnutls_x509_crt_t" ∷ "c_char_p" ∷ "c_void_p" ∷ "size_t" ∷ "c_uint" ∷ []) c_int none
    ∷ function "gnutls_x509_crt_set_issuer_dn_by_oid" "gnutls_x509_crt_set_issuer_dn_by_oid"
        ("gnutls_x509_crt_t" ∷ "c_char_p" ∷ "c_uint" ∷ "c_void_p" ∷ "c_uint" ∷ []) c_int none
    ∷ function "gnutls_x509_crt_set_key" "gnutls_x509_crt_set_key"
        ("gnutls_x509_crt_t" ∷ "gnutls_x509_privkey_t" ∷ []) c_int none
    ∷ function "gnutls_x509_crt_set_key_purpose_oid" "gnutls_x509_crt_set_key_purpose_oid"
        ("gnutls_x509_crt_t" ∷ "c_void_p" ∷ "c_uint" ∷ []) c_int none
    ∷ function "gnutls_x509_crt_set_key_usage" "gnutls_x509_crt_set_key_usage"
        ("gnutls_x509_crt_t" ∷ "c_uint" ∷ []) c_int none
    ∷ function "gnutls_x509_crt_set_proxy" "gnutls_x509_crt_set_proxy"
        ("gnutls_x509_crt_t" ∷ "c_int" ∷ "c_char_p" ∷ "c_char_p" ∷ "size_t" ∷ []) c_int none
    ∷ function "gnutls_x509_crt_set_proxy_dn" "gnutls_x509_crt_set_proxy_dn"
        ("gnutls_x509_crt_t" ∷ "gnutls_x509_crt_t" ∷ "c_uint" ∷ "c_void_p" ∷ "c_uint" ∷ []) c_int
        none
    ∷ function "gnutls_x509_crt_set_serial" "gnutls_x509_crt_set_serial"
        ("gnutls_x509_crt_t" ∷ "c_void_p" ∷ "size_t" ∷ []) c_int none
    ∷ function "gnutls_x509_crt_set_subject_alternative_name"
        "gnutls_x509_crt_set_subject_alternative_name"
        ("gnutls_x509_crt_t" ∷ "gnutls_x509_subject_alt_name_t" ∷ "c_char_p" ∷ []) c_int none
    ∷ function "gnutls_x509_crt_set_subject_key_id" "gnutls_x509_crt_set_subject_key_id"
        ("gnutls_x509_crt_t" ∷ "c_void_p" ∷ "size_t" ∷ []) c_int none
    ∷ function "gnutls_x509_crt_set_version" "gnutls_x509_crt_set_version"
        ("gnutls_x509_crt_t" ∷ "c_uint" ∷ []) c_int none
    ∷ function "gnutls_x509_crt_sign" "gnutls_x509_crt_sign"
        ("gnutls_x509_crt_t" ∷ "gnutls_x509_crt_t" ∷ "gnutls_x509_privkey_t" ∷ []) c_int none
    ∷ function "gnutls_x509_crt_sign2" "gnutls_x509_crt_sign2"
        ("gnutls_x509_crt_t" ∷ "gnutls_x509_crt_t" ∷ "gnutls_x509_privkey_t"
          ∷ "gnutls_digest_algorithm_t" ∷ "c_uint" ∷ [])
        c_int none
    ∷ function "gnutls_x509_crt_verify" "gnutls_x509_crt_verify"
        ("gnutls_x509_crt_t" ∷ "POINTER(gnutls_x509_crt_t)" ∷ "c_int" ∷ "c_uint" ∷ "POINTER(c_uint)"
          ∷ [])
        c_int none
    ∷ function "gnutls_x509_dn_deinit" "gnutls_x509_dn_deinit" ("gnutls_x509_dn_t" ∷ []) nothing
        none
    ∷ function "gnutls_x509_dn_export" "gnutls_x509_dn_export"
        ("gnutls_x509_dn_t" ∷ "gnutls_x509_crt_fmt_t" ∷ "c_void_p" ∷ "POINTER(size_t)" ∷ []) c_int
        none
    ∷ function "gnutls_x509_dn_get_rdn_ava" "gnutls_x509_dn_get_rdn_ava"
        ("gnutls_x509_dn_t" ∷ "c_int" ∷ "c_int" ∷ "POINTER(gnutls_x509_ava_st)" ∷ []) c_int none
    ∷ []
