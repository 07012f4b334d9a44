-- ===== src/Bindings/CertificateSetOpenpgp.antt =====
-- gnutls/library/functions.py, from `gnutls_certificate_set_openpgp_key` to `gnutls_openpgp_crt_import`.
use python3_gnutls.Prelude.{none, some, List, [], ◌∷◌}
use python3_gnutls.Bindings.Entry.{c_int, time_t, nothing, enum, Binding, function}

abbrev pub from_certificate_set_openpgp_key : List Binding
from_certificate_set_openpgp_key =
    function "gnutls_certificate_set_openpgp_key" "gnutls_certificate_set_openpgp_key"
      ("gnutls_certificate_credentials_t" ∷ "gnutls_openpgp_crt_t" ∷ "gnutls_openpgp_privkey_t"
        ∷ [])
      c_int none
    ∷ function "gnutls_certificate_set_openpgp_key_file" "gnutls_certificate_set_openpgp_key_file"
        ("gnutls_certificate_credentials_t" ∷ "c_char_p" ∷ "c_char_p" ∷ "gnutls_openpgp_crt_fmt_t"
          ∷ [])
        c_int none
    ∷ function "gnutls_certificate_set_openpgp_key_file2" "gnutls_certificate_set_openpgp_key_file2"
        ("gnutls_certificate_credentials_t" ∷ "c_char_p" ∷ "c_char_p" ∷ "c_char_p"
          ∷ "gnutls_openpgp_crt_fmt_t" ∷ [])
        c_int none
    ∷ function "gnutls_certificate_set_openpgp_key_mem" "gnutls_certificate_set_openpgp_key_mem"
        ("gnutls_certificate_credentials_t" ∷ "POINTER(gnutls_datum_t)" ∷ "POINTER(gnutls_datum_t)"
          ∷ "gnutls_openpgp_crt_fmt_t" ∷ [])
        c_int none
    ∷ function "gnutls_certificate_set_openpgp_key_mem2" "gnutls_certificate_set_openpgp_key_mem2"
        ("gnutls_certificate_credentials_t" ∷ "POINTER(gnutls_datum_t)" ∷ "POINTER(gnutls_datum_t)"
          ∷ "c_char_p" ∷ "gnutls_openpgp_crt_fmt_t" ∷ [])
        c_int none
    ∷ function "gnutls_certificate_set_openpgp_keyring_file"
        "gnutls_certificate_set_openpgp_keyring_file"
        ("gnutls_certificate_credentials_t" ∷ "c_char_p" ∷ "gnutls_openpgp_crt_fmt_t" ∷ []) c_int
        none
    ∷ function "gnutls_certificate_set_openpgp_keyring_mem"
        "gnutls_certificate_set_openpgp_keyring_mem"
        ("gnutls_certificate_credentials_t" ∷ "POINTER(c_ubyte)" ∷ "size_t"
          ∷ "gnutls_openpgp_crt_fmt_t" ∷ [])
        c_int none
    ∷ function "gnutls_openpgp_crt_check_hostname" "gnutls_openpgp_crt_check_hostname"
        ("gnutls_openpgp_crt_t" ∷ "c_char_p" ∷ []) c_int none
    ∷ function "gnutls_openpgp_crt_deinit" "gnutls_openpgp_crt_deinit" ("gnutls_openpgp_crt_t" ∷ [])
        nothing none
    ∷ function "gnutls_openpgp_crt_export" "gnutls_openpgp_crt_export"
        ("gnutls_openpgp_crt_t" ∷ "gnutls_openpgp_crt_fmt_t" ∷ "c_void_p" ∷ "POINTER(size_t)" ∷ [])
        c_int none
    ∷ function "gnutls_openpgp_crt_get_auth_subkey" "gnutls_openpgp_crt_get_auth_subkey"
        ("gnutls_openpgp_crt_t" ∷ "POINTER(c_ubyte)" ∷ "c_uint" ∷ []) c_int none
    ∷ function "gnutls_openpgp_crt_get_creation_time" "gnutls_openpgp_crt_get_creation_time"
        ("gnutls_openpgp_crt_t" ∷ []) time_t (some "cannot get OpenPGP key creation time")
    ∷ function "gnutls_openpgp_crt_get_expiration_time" "gnutls_openpgp_crt_get_expiration_time"
        ("gnutls_openpgp_crt_t" ∷ []) time_t (some "cannot get OpenPGP key expiration time")
    ∷ function "gnutls_openpgp_crt_get_fingerprint" "gnutls_openpgp_crt_get_fingerprint"
        ("gnutls_openpgp_crt_t" ∷ "c_void_p" ∷ "POINTER(size_t)" ∷ []) c_int none
    ∷ function "gnutls_openpgp_crt_get_key_id" "gnutls_openpgp_crt_get_key_id"
        ("gnutls_openpgp_crt_t" ∷ "POINTER(c_ubyte)" ∷ []) c_int none
    ∷ function "gnutls_openpgp_crt_get_key_usage" "gnutls_openpgp_crt_get_key_usage"
        ("gnutls_openpgp_crt_t" ∷ "POINTER(c_uint)" ∷ []) c_int none
    ∷ function "gnutls_openpgp_crt_get_name" "gnutls_openpgp_crt_get_name"
        ("gnutls_openpgp_crt_t" ∷ "c_int" ∷ "c_char_p" ∷ "POINTER(size_t)" ∷ []) c_int none
    ∷ function "gnutls_openpgp_crt_get_pk_algorithm" "gnutls_openpgp_crt_get_pk_algorithm"
        ("gnutls_openpgp_crt_t" ∷ "POINTER(c_uint)" ∷ []) (enum "gnutls_pk_algorithm_t") none
    ∷ []

abbrev pub from_openpgp_crt_get_pk_dsa_raw : List Binding
from_openpgp_crt_get_pk_dsa_raw =
    function "gnutls_openpgp_crt_get_pk_dsa_raw" "gnutls_openpgp_crt_get_pk_dsa_raw"
      ("gnutls_openpgp_crt_t" ∷ "POINTER(gnutls_datum_t)" ∷ "POINTER(gnutls_datum_t)"
        ∷ "POINTER(gnutls_datum_t)" ∷ "POINTER(gnutls_datum_t)" ∷ [])
      c_int none
    ∷ function "gnutls_openpgp_crt_get_pk_rsa_raw" "gnutls_openpgp_crt_get_pk_rsa_raw"
        ("gnutls_openpgp_crt_t" ∷ "POINTER(gnutls_datum_t)" ∷ "POINTER(gnutls_datum_t)" ∷ []) c_int
        none
    ∷ function "gnutls_openpgp_crt_get_preferred_key_id" "gnutls_openpgp_crt_get_preferred_key_id"
        ("gnutls_openpgp_crt_t" ∷ "POINTER(c_ubyte)" ∷ []) c_int none
    ∷ function "gnutls_openpgp_crt_get_revoked_status" "gnutls_openpgp_crt_get_revoked_status"
        ("gnutls_openpgp_crt_t" ∷ []) c_int none
    ∷ function "gnutls_openpgp_crt_get_subkey_count" "gnutls_openpgp_crt_get_subkey_count"
        ("gnutls_openpgp_crt_t" ∷ []) c_int none
    ∷ function "gnutls_openpgp_crt_get_subkey_creation_time"
        "gnutls_openpgp_crt_get_subkey_creation_time" ("gnutls_openpgp_crt_t" ∷ "c_uint" ∷ [])
        time_t (some "cannot get OpenPGP subkey creation time")
    ∷ function "gnutls_openpgp_crt_get_subkey_expiration_time"
        "gnutls_openpgp_crt_get_subkey_expiration_time" ("gnutls_openpgp_crt_t" ∷ "c_uint" ∷ [])
        time_t (some "cannot get OpenPGP subkey expiration time")
    ∷ function "gnutls_openpgp_crt_get_subkey_fingerprint"
        "gnutls_openpgp_crt_get_subkey_fingerprint"
        ("gnutls_openpgp_crt_t" ∷ "c_uint" ∷ "c_void_p" ∷ "POINTER(size_t)" ∷ []) c_int none
    ∷ function "gnutls_openpgp_crt_get_subkey_id" "gnutls_openpgp_crt_get_subkey_id"
        ("gnutls_openpgp_crt_t" ∷ "c_uint" ∷ "POINTER(c_ubyte)" ∷ []) c_int none
    ∷ function "gnutls_openpgp_crt_get_subkey_idx" "gnutls_openpgp_crt_get_subkey_idx"
        ("gnutls_openpgp_crt_t" ∷ "POINTER(c_ubyte)" ∷ []) c_int none
    ∷ function "gnutls_openpgp_crt_get_subkey_pk_algorithm"
        "gnutls_openpgp_crt_get_subkey_pk_algorithm"
        ("gnutls_openpgp_crt_t" ∷ "c_uint" ∷ "POINTER(c_uint)" ∷ []) (enum "gnutls_pk_algorithm_t")
        none
    ∷ function "gnutls_openpgp_crt_get_subkey_pk_dsa_raw" "gnutls_openpgp_crt_get_subkey_pk_dsa_raw"
        ("gnutls_openpgp_crt_t" ∷ "c_uint" ∷ "POINTER(gnutls_datum_t)" ∷ "POINTER(gnutls_datum_t)"
          ∷ "POINTER(gnutls_datum_t)" ∷ "POINTER(gnutls_datum_t)" ∷ [])
        c_int none
    ∷ function "gnutls_openpgp_crt_get_subkey_pk_rsa_raw" "gnutls_openpgp_crt_get_subkey_pk_rsa_raw"
        ("gnutls_openpgp_crt_t" ∷ "c_uint" ∷ "POINTER(gnutls_datum_t)" ∷ "POINTER(gnutls_datum_t)"
          ∷ [])
        c_int none
    ∷ function "gnutls_openpgp_crt_get_subkey_revoked_status"
        "gnutls_openpgp_crt_get_subkey_revoked_status" ("gnutls_openpgp_crt_t" ∷ "c_uint" ∷ [])
        c_int none
    ∷ function "gnutls_openpgp_crt_get_subkey_usage" "gnutls_openpgp_crt_get_subkey_usage"
        ("gnutls_openpgp_crt_t" ∷ "c_uint" ∷ "POINTER(c_uint)" ∷ []) c_int none
    ∷ function "gnutls_openpgp_crt_get_version" "gnutls_openpgp_crt_get_version"
        ("gnutls_openpgp_crt_t" ∷ []) c_int none
    ∷ function "gnutls_openpgp_crt_import" "gnutls_openpgp_crt_import"
        ("gnutls_openpgp_crt_t" ∷ "POINTER(gnutls_datum_t)" ∷ "gnutls_openpgp_crt_fmt_t" ∷ []) c_int
        none
    ∷ []
