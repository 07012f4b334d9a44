-- ===== src/Bindings/AlertGet.antt =====
-- gnutls/library/functions.py, from `gnutls_alert_get` to `gnutls_certificate_type_get_name`.
use python3_gnutls.Prelude.{none, some, List, [], ◌∷◌}
use python3_gnutls.Bindings.Entry.{
  c_int, c_char_p, time_t, nothing, enum, pointer, Binding, function,
}

abbrev pub from_alert_get : List Binding
from_alert_get =
    function "gnutls_alert_get" "gnutls_alert_get" ("gnutls_session_t" ∷ [])
      (enum "gnutls_alert_description_t") none
    ∷ function "gnutls_alert_get_name" "gnutls_alert_get_name" ("gnutls_alert_description_t" ∷ [])
        c_char_p none
    ∷ function "gnutls_alert_send" "gnutls_alert_send"
        ("gnutls_session_t" ∷ "gnutls_alert_level_t" ∷ "gnutls_alert_description_t" ∷ []) c_int none
    ∷ function "gnutls_alert_send_appropriate" "gnutls_alert_send_appropriate"
        ("gnutls_session_t" ∷ "c_int" ∷ []) c_int none
    ∷ function "gnutls_anon_allocate_client_credentials" "gnutls_anon_allocate_client_credentials"
        ("POINTER(gnutls_anon_client_credentials_t)" ∷ []) c_int none
    ∷ function "gnutls_anon_allocate_server_credentials" "gnutls_anon_allocate_server_credentials"
        ("POINTER(gnutls_anon_server_credentials_t)" ∷ []) c_int none
    ∷ function "gnutls_anon_free_client_credentials" "gnutls_anon_free_client_credentials"
        ("gnutls_anon_client_credentials_t" ∷ []) nothing none
    ∷ function "gnutls_anon_free_server_credentials" "gnutls_anon_free_server_credentials"
        ("gnutls_anon_server_credentials_t" ∷ []) nothing none
    ∷ function "gnutls_anon_set_params_function" "gnutls_anon_set_params_function"
        ("gnutls_anon_server_credentials_t" ∷ "gnutls_params_function" ∷ []) nothing none
    ∷ function "gnutls_anon_set_server_dh_params" "gnutls_anon_set_server_dh_params"
        ("gnutls_anon_server_credentials_t" ∷ "gnutls_dh_params_t" ∷ []) nothing none
    ∷ function "gnutls_anon_set_server_params_function" "gnutls_anon_set_server_params_function"
        ("gnutls_anon_server_credentials_t" ∷ "gnutls_params_function" ∷ []) nothing none
    ∷ function "gnutls_auth_client_get_type" "gnutls_auth_client_get_type" ("gnutls_session_t" ∷ [])
        (enum "gnutls_credentials_type_t") none
    ∷ function "gnutls_auth_get_type" "gnutls_auth_get_type" ("gnutls_session_t" ∷ [])
        (enum "gnutls_credentials_type_t") none
    ∷ function "gnutls_auth_server_get_type" "gnutls_auth_server_get_type" ("gnutls_session_t" ∷ [])
        (enum "gnutls_credentials_type_t") none
    ∷ function "gnutls_bye" "gnutls_bye" ("gnutls_session_t" ∷ "gnutls_close_request_t" ∷ []) c_int
        none
    ∷ function "gnutls_certificate_activation_time_peers" "gnutls_certificate_activation_time_peers"
        ("gnutls_session_t" ∷ []) time_t (some "cannot get certificate activation time")
    ∷ function "gnutls_certificate_allocate_credentials" "gnutls_certificate_allocate_credentials"
        ("POINTER(gnutls_certificate_credentials_t)" ∷ []) c_int none
    ∷ function "gnutls_certificate_client_get_request_status"
        "gnutls_certificate_client_get_request_status" ("gnutls_session_t" ∷ []) c_int none
    ∷ function "gnutls_certificate_set_retrieve_function" "gnutls_certificate_set_retrieve_function"
        ("gnutls_certificate_credentials_t" ∷ "gnutls_certificate_retrieve_function" ∷ []) nothing
        none
    ∷ function "gnutls_certificate_expiration_time_peers" "gnutls_certificate_expiration_time_peers"
        ("gnutls_session_t" ∷ []) time_t (some "cannot get certificate expiration time")
    ∷ function "gnutls_certificate_free_ca_names" "gnutls_certificate_free_ca_names"
        ("gnutls_certificate_credentials_t" ∷ []) nothing none
    ∷ function "gnutls_certificate_free_cas" "gnutls_certificate_free_cas"
        ("gnutls_certificate_credentials_t" ∷ []) nothing none
    ∷ function "gnutls_certificate_free_credentials" "gnutls_certificate_free_credentials"
        ("gnutls_certificate_credentials_t" ∷ []) nothing none
    ∷ function "gnutls_certificate_free_crls" "gnutls_certificate_free_crls"
        ("gnutls_certificate_credentials_t" ∷ []) nothing none
    ∷ function "gnutls_certificate_free_keys" "gnutls_certificate_free_keys"
        ("gnutls_certificate_credentials_t" ∷ []) nothing none
    ∷ function "gnutls_certificate_get_ours" "gnutls_certificate_get_ours" ("gnutls_session_t" ∷ [])
        (pointer "gnutls_datum_t") none
    ∷ []

abbrev pub from_certificate_get_peers : List Binding
from_certificate_get_peers =
    function "gnutls_certificate_get_peers" "gnutls_certificate_get_peers"
      ("gnutls_session_t" ∷ "POINTER(c_uint)" ∷ []) (pointer "gnutls_datum_t") none
    ∷ function "gnutls_certificate_send_x509_rdn_sequence"
        "gnutls_certificate_send_x509_rdn_sequence" ("gnutls_session_t" ∷ "c_int" ∷ []) nothing none
    ∷ function "gnutls_certificate_server_set_request" "gnutls_certificate_server_set_request"
        ("gnutls_session_t" ∷ "gnutls_certificate_request_t" ∷ []) nothing none
    ∷ function "gnutls_certificate_set_dh_params" "gnutls_certificate_set_dh_params"
        ("gnutls_certificate_credentials_t" ∷ "gnutls_dh_params_t" ∷ []) nothing none
    ∷ function "gnutls_certificate_set_params_function" "gnutls_certificate_set_params_function"
        ("gnutls_certificate_credentials_t" ∷ "gnutls_params_function" ∷ []) nothing none
    ∷ function "gnutls_certificate_set_verify_flags" "gnutls_certificate_set_verify_flags"
        ("gnutls_certificate_credentials_t" ∷ "c_uint" ∷ []) nothing none
    ∷ function "gnutls_certificate_set_verify_limits" "gnutls_certificate_set_verify_limits"
        ("gnutls_certificate_credentials_t" ∷ "c_uint" ∷ "c_uint" ∷ []) nothing none
    ∷ function "gnutls_certificate_set_x509_crl" "gnutls_certificate_set_x509_crl"
        ("gnutls_certificate_credentials_t" ∷ "POINTER(gnutls_x509_crl_t)" ∷ "c_int" ∷ []) c_int
        none
    ∷ function "gnutls_certificate_set_x509_crl_file" "gnutls_certificate_set_x509_crl_file"
        ("gnutls_certificate_credentials_t" ∷ "c_char_p" ∷ "gnutls_x509_crt_fmt_t" ∷ []) c_int none
    ∷ function "gnutls_certificate_set_x509_crl_mem" "gnutls_certificate_set_x509_crl_mem"
        ("gnutls_certificate_credentials_t" ∷ "POINTER(gnutls_datum_t)" ∷ "gnutls_x509_crt_fmt_t"
          ∷ [])
        c_int none
    ∷ function "gnutls_certificate_set_x509_key" "gnutls_certificate_set_x509_key"
        ("gnutls_certificate_credentials_t" ∷ "POINTER(gnutls_x509_crt_t)" ∷ "c_int"
          ∷ "gnutls_x509_privkey_t" ∷ [])
        c_int none
    ∷ function "gnutls_certificate_set_x509_key_file" "gnutls_certificate_set_x509_key_file"
        ("gnutls_certificate_credentials_t" ∷ "c_char_p" ∷ "c_char_p" ∷ "gnutls_x509_crt_fmt_t"
          ∷ [])
        c_int none
    ∷ function "gnutls_certificate_set_x509_key_mem" "gnutls_certificate_set_x509_key_mem"
        ("gnutls_certificate_credentials_t" ∷ "POINTER(gnutls_datum_t)" ∷ "POINTER(gnutls_datum_t)"
          ∷ "gnutls_x509_crt_fmt_t" ∷ [])
        c_int none
    ∷ function "gnutls_certificate_set_x509_simple_pkcs12_file"
        "gnutls_certificate_set_x509_simple_pkcs12_file"
        ("gnutls_certificate_credentials_t" ∷ "c_char_p" ∷ "gnutls_x509_crt_fmt_t" ∷ "c_char_p"
          ∷ [])
        c_int none
    ∷ function "gnutls_certificate_set_x509_trust" "gnutls_certificate_set_x509_trust"
        ("gnutls_certificate_credentials_t" ∷ "POINTER(gnutls_x509_crt_t)" ∷ "c_int" ∷ []) c_int
        none
    ∷ function "gnutls_certificate_set_x509_trust_file" "gnutls_certificate_set_x509_trust_file"
        ("gnutls_certificate_credentials_t" ∷ "c_char_p" ∷ "gnutls_x509_crt_fmt_t" ∷ []) c_int none
    ∷ function "gnutls_certificate_set_x509_trust_mem" "gnutls_certificate_set_x509_trust_mem"
        ("gnutls_certificate_credentials_t" ∷ "POINTER(gnutls_datum_t)" ∷ "gnutls_x509_crt_fmt_t"
          ∷ [])
        c_int none
    ∷ function "gnutls_certificate_type_get" "gnutls_certificate_type_get" ("gnutls_session_t" ∷ [])
        (enum "gnutls_certificate_type_t") none
    ∷ function "gnutls_certificate_type_get_id" "gnutls_certificate_type_get_id" ("c_char_p" ∷ [])
        (enum "gnutls_certificate_type_t") none
    ∷ function "gnutls_certificate_type_get_name" "gnutls_certificate_type_get_name"
        ("gnutls_certificate_type_t" ∷ []) c_char_p none
    ∷ []
