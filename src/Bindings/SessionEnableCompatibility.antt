-- ===== src/Bindings/SessionEnableCompatibility.antt =====
-- gnutls/library/functions.py, from `gnutls_session_enable_compatibility_mode` to `gnutls_x509_crq_get_pk_algorithm`.
use python3_gnutls.Prelude.{none, some, List, [], ◌∷◌}
use python3_gnutls.Bindings.Entry.{
  c_int, c_char_p, c_void_p, time_t, transport_ptr, nothing, Binding, function,
}

abbrev pub from_session_enable_compatibility_mode : List Binding
from_session_enable_compatibility_mode =
    function "gnutls_session_enable_compatibility_mode" "gnutls_session_enable_compatibility_mode"
      ("gnutls_session_t" ∷ []) nothing none
    ∷ function "gnutls_session_get_data" "gnutls_session_get_data"
        ("gnutls_session_t" ∷ "c_void_p" ∷ "POINTER(size_t)" ∷ []) c_int none
    ∷ function "gnutls_session_get_data2" "gnutls_session_get_data2"
        ("gnutls_session_t" ∷ "POINTER(gnutls_datum_t)" ∷ []) c_int none
    ∷ function "gnutls_session_get_id" "gnutls_session_get_id"
        ("gnutls_session_t" ∷ "c_void_p" ∷ "POINTER(size_t)" ∷ []) c_int none
    ∷ function "gnutls_session_get_ptr" "gnutls_session_get_ptr" ("gnutls_session_t" ∷ []) c_void_p
        none
    ∷ function "gnutls_session_is_resumed" "gnutls_session_is_resumed" ("gnutls_session_t" ∷ [])
        c_int none
    ∷ function "gnutls_session_set_data" "gnutls_session_set_data"
        ("gnutls_session_t" ∷ "c_void_p" ∷ "size_t" ∷ []) c_int none
    ∷ function "gnutls_session_set_ptr" "gnutls_session_set_ptr"
        ("gnutls_session_t" ∷ "c_void_p" ∷ []) nothing none
    ∷ function "gnutls_set_default_priority" "gnutls_set_default_priority" ("gnutls_session_t" ∷ [])
        c_int none
    ∷ function "gnutls_sign_get_name" "gnutls_sign_get_name" ("gnutls_sign_algorithm_t" ∷ [])
        c_char_p none
    ∷ function "gnutls_strerror" "gnutls_strerror" ("c_int" ∷ []) c_char_p none
    ∷ function "gnutls_supplemental_get_name" "gnutls_supplemental_get_name"
        ("gnutls_supplemental_data_format_type_t" ∷ []) c_char_p none
    ∷ function "gnutls_transport_get_ptr" "gnutls_transport_get_ptr" ("gnutls_session_t" ∷ [])
        transport_ptr none
    ∷ function "gnutls_transport_get_ptr2" "gnutls_transport_get_ptr2"
        ("gnutls_session_t" ∷ "POINTER(gnutls_transport_ptr_t)" ∷ "POINTER(gnutls_transport_ptr_t)"
          ∷ [])
        nothing none
    ∷ function "gnutls_transport_set_errno" "gnutls_transport_set_errno"
        ("gnutls_session_t" ∷ "c_int" ∷ []) nothing none
    ∷ function "gnutls_transport_set_ptr" "gnutls_transport_set_ptr"
        ("gnutls_session_t" ∷ "gnutls_transport_ptr_t" ∷ []) nothing none
    ∷ function "gnutls_transport_set_ptr2" "gnutls_transport_set_ptr2"
        ("gnutls_session_t" ∷ "gnutls_transport_ptr_t" ∷ "gnutls_transport_ptr_t" ∷ []) nothing none
    ∷ function "gnutls_transport_set_pull_function" "gnutls_transport_set_pull_function"
        ("gnutls_session_t" ∷ "gnutls_pull_func" ∷ []) nothing none
    ∷ function "gnutls_transport_set_push_function" "gnutls_transport_set_push_function"
        ("gnutls_session_t" ∷ "gnutls_push_func" ∷ []) nothing none
    ∷ function "gnutls_x509_crl_check_issuer" "gnutls_x509_crl_check_issuer"
        ("gnutls_x509_crl_t" ∷ "gnutls_x509_crt_t" ∷ []) c_int none
    ∷ function "gnutls_x509_crl_deinit" "gnutls_x509_crl_deinit" ("gnutls_x509_crl_t" ∷ []) nothing
        none
    ∷ function "gnutls_x509_crl_export" "gnutls_x509_crl_export"
        ("gnutls_x509_crl_t" ∷ "gnutls_x509_crt_fmt_t" ∷ "c_void_p" ∷ "POINTER(size_t)" ∷ []) c_int
        none
    ∷ function "gnutls_x509_crl_get_crt_count" "gnutls_x509_crl_get_crt_count"
        ("gnutls_x509_crl_t" ∷ []) c_int none
    ∷ function "gnutls_x509_crl_get_crt_serial" "gnutls_x509_crl_get_crt_serial"
        ("gnutls_x509_crl_t" ∷ "c_int" ∷ "POINTER(c_ubyte)" ∷ "POINTER(size_t)" ∷ "POINTER(time_t)"
          ∷ [])
        c_int none
    ∷ function "gnutls_x509_crl_get_dn_oid" "gnutls_x509_crl_get_dn_oid"
        ("gnutls_x509_crl_t" ∷ "c_int" ∷ "c_void_p" ∷ "POINTER(size_t)" ∷ []) c_int none
    ∷ function "gnutls_x509_crl_get_issuer_dn" "gnutls_x509_crl_get_issuer_dn"
        ("gnutls_x509_crl_t" ∷ "c_char_p" ∷ "POINTER(size_t)" ∷ []) c_int none
    ∷ function "gnutls_x509_crl_get_issuer_dn_by_oid" "gnutls_x509_crl_get_issuer_dn_by_oid"
        ("gnutls_x509_crl_t" ∷ "c_char_p" ∷ "c_int" ∷ "c_uint" ∷ "c_void_p" ∷ "POINTER(size_t)"
          ∷ [])
        c_int none
    ∷ function "gnutls_x509_crl_get_next_update" "gnutls_x509_crl_get_next_update"
        ("gnutls_x509_crl_t" ∷ []) time_t (some "cannot get CRL's next update time")
    ∷ function "gnutls_x509_crl_get_signature" "gnutls_x509_crl_get_signature"
        ("gnutls_x509_crl_t" ∷ "c_char_p" ∷ "POINTER(size_t)" ∷ []) c_int none
    ∷ []

abbrev pub from_x509_crl_get_signature_algorithm : List Binding
from_x509_crl_get_signature_algorithm =
    function "gnutls_x509_crl_get_signature_algorithm" "gnutls_x509_crl_get_signature_algorithm"
      ("gnutls_x509_crl_t" ∷ []) c_int none
    ∷ function "gnutls_x509_crl_get_this_update" "gnutls_x509_crl_get_this_update"
        ("gnutls_x509_crl_t" ∷ []) time_t (some "cannot get CRL's issue time")
    ∷ function "gnutls_x509_crl_get_version" "gnutls_x509_crl_get_version"
        ("gnutls_x509_crl_t" ∷ []) c_int none
    ∷ function "gnutls_x509_crl_import" "gnutls_x509_crl_import"
        ("gnutls_x509_crl_t" ∷ "POINTER(gnutls_datum_t)" ∷ "gnutls_x509_crt_fmt_t" ∷ []) c_int none
    ∷ function "gnutls_x509_crl_init" "gnutls_x509_crl_init" ("POINTER(gnutls_x509_crl_t)" ∷ [])
        c_int none
    ∷ function "gnutls_x509_crl_print" "gnutls_x509_crl_print"
        ("gnutls_x509_crl_t" ∷ "gnutls_certificate_print_formats_t" ∷ "POINTER(gnutls_datum_t)"
          ∷ [])
        c_int none
    ∷ function "gnutls_x509_crl_set_crt" "gnutls_x509_crl_set_crt"
        ("gnutls_x509_crl_t" ∷ "gnutls_x509_crt_t" ∷ "time_t" ∷ []) c_int none
    ∷ function "gnutls_x509_crl_set_crt_serial" "gnutls_x509_crl_set_crt_serial"
        ("gnutls_x509_crl_t" ∷ "c_void_p" ∷ "size_t" ∷ "time_t" ∷ []) c_int none
    ∷ function "gnutls_x509_crl_set_next_update" "gnutls_x509_crl_set_next_update"
        ("gnutls_x509_crl_t" ∷ "time_t" ∷ []) c_int none
    ∷ function "gnutls_x509_crl_set_this_update" "gnutls_x509_crl_set_this_update"
        ("gnutls_x509_crl_t" ∷ "time_t" ∷ []) c_int none
    ∷ function "gnutls_x509_crl_set_version" "gnutls_x509_crl_set_version"
        ("gnutls_x509_crl_t" ∷ "c_uint" ∷ []) c_int none
    ∷ function "gnutls_x509_crl_sign" "gnutls_x509_crl_sign"
        ("gnutls_x509_crl_t" ∷ "gnutls_x509_crt_t" ∷ "gnutls_x509_privkey_t" ∷ []) c_int none
    ∷ function "gnutls_x509_crl_sign2" "gnutls_x509_crl_sign2"
        ("gnutls_x509_crl_t" ∷ "gnutls_x509_crt_t" ∷ "gnutls_x509_privkey_t"
          ∷ "gnutls_digest_algorithm_t" ∷ "c_uint" ∷ [])
        c_int none
    ∷ function "gnutls_x509_crl_verify" "gnutls_x509_crl_verify"
        ("gnutls_x509_crl_t" ∷ "POINTER(gnutls_x509_crt_t)" ∷ "c_int" ∷ "c_uint" ∷ "POINTER(c_uint)"
          ∷ [])
        c_int none
    ∷ function "gnutls_x509_crq_deinit" "gnutls_x509_crq_deinit" ("gnutls_x509_crq_t" ∷ []) nothing
        none
    ∷ function "gnutls_x509_crq_export" "gnutls_x509_crq_export"
        ("gnutls_x509_crq_t" ∷ "gnutls_x509_crt_fmt_t" ∷ "c_void_p" ∷ "POINTER(size_t)" ∷ []) c_int
        none
    ∷ function "gnutls_x509_crq_get_attribute_by_oid" "gnutls_x509_crq_get_attribute_by_oid"
        ("gnutls_x509_crq_t" ∷ "c_char_p" ∷ "c_int" ∷ "c_void_p" ∷ "POINTER(size_t)" ∷ []) c_int
        none
    ∷ function "gnutls_x509_crq_get_challenge_password" "gnutls_x509_crq_get_challenge_password"
        ("gnutls_x509_crq_t" ∷ "c_char_p" ∷ "POINTER(size_t)" ∷ []) c_int none
    ∷ function "gnutls_x509_crq_get_dn" "gnutls_x509_crq_get_dn"
        ("gnutls_x509_crq_t" ∷ "c_char_p" ∷ "POINTER(size_t)" ∷ []) c_int none
    ∷ function "gnutls_x509_crq_get_dn_by_oid" "gnutls_x509_crq_get_dn_by_oid"
        ("gnutls_x509_crq_t" ∷ "c_char_p" ∷ "c_int" ∷ "c_uint" ∷ "c_void_p" ∷ "POINTER(size_t)"
          ∷ [])
        c_int none
    ∷ function "gnutls_x509_crq_get_dn_oid" "gnutls_x509_crq_get_dn_oid"
        ("gnutls_x509_crq_t" ∷ "c_int" ∷ "c_void_p" ∷ "POINTER(size_t)" ∷ []) c_int none
    ∷ function "gnutls_x509_crq_get_pk_algorithm" "gnutls_x509_crq_get_pk_algorithm"
        ("gnutls_x509_crq_t" ∷ "POINTER(c_uint)" ∷ []) c_int none
    ∷ []
