-- ===== src/Bindings/Relied.antt =====
-- Which functions gnutls/crypto.py and gnutls/connection.py call for their exceptions alone, and
-- that these are checked.
use python3_gnutls.Prelude.{String, Bool, true, false, ◌&&◌, List, [], ◌∷◌}
use python3_gnutls.Text.{codes, str_eq}
use python3_gnutls.Bindings.Entry.{Binding, name_of, is_checked}

-- The functions that the rest of the program calls through `check_status`.
abbrev pub relied : List String
relied =
    "gnutls_x509_crt_get_dn" ∷ "gnutls_x509_crt_get_issuer_dn" ∷ "gnutls_x509_crt_get_serial"
    ∷ "gnutls_x509_crt_get_subject_alt_name" ∷ "gnutls_x509_crt_get_activation_time"
    ∷ "gnutls_x509_crt_get_expiration_time" ∷ "gnutls_x509_crt_get_version"
    ∷ "gnutls_x509_crt_check_issuer" ∷ "gnutls_x509_crt_check_hostname" ∷ "gnutls_x509_crt_export"
    ∷ "gnutls_x509_crt_check_revocation" ∷ "gnutls_x509_crl_get_crt_count"
    ∷ "gnutls_x509_crl_get_version" ∷ "gnutls_x509_crl_get_issuer_dn" ∷ "gnutls_x509_crl_export"
    ∷ "gnutls_certificate_set_x509_key" ∷ "gnutls_certificate_set_x509_trust"
    ∷ "gnutls_certificate_verify_peers2" ∷ "gnutls_certificate_type_get" ∷ "gnutls_record_send"
    ∷ "gnutls_record_recv" ∷ "gnutls_handshake" ∷ "gnutls_bye" ∷ "gnutls_alert_send"
    ∷ "gnutls_server_name_get" ∷ "gnutls_priority_init" ∷ "gnutls_init"
    ∷ "gnutls_set_default_priority" ∷ "gnutls_priority_set_direct" ∷ "gnutls_credentials_set"
    ∷ "gnutls_server_name_set" ∷ "gnutls_pkcs7_get_signature_count" ∷ "gnutls_pkcs7_verify"
    ∷ "gnutls_pkcs7_verify_direct" ∷ "gnutls_pkcs7_get_signature_info"
    ∷ "gnutls_aead_cipher_encrypt" ∷ "gnutls_aead_cipher_decrypt" ∷ "gnutls_cipher_tag"
    ∷ "gnutls_privkey_init" ∷ "gnutls_privkey_generate" ∷ "gnutls_privkey_import_url"
    ∷ "gnutls_privkey_import_tpm_url" ∷ "gnutls_privkey_get_pk_algorithm"
    ∷ "gnutls_privkey_sign_data" ∷ "gnutls_privkey_sign_hash" ∷ "gnutls_privkey_decrypt_data"
    ∷ "gnutls_privkey_export_rsa_raw" ∷ "gnutls_privkey_export_dsa_raw" ∷ "gnutls_pubkey_init"
    ∷ "gnutls_pubkey_verify_data2" ∷ "gnutls_pubkey_verify_hash2" ∷ "gnutls_pubkey_encrypt_data"
    ∷ "gnutls_pubkey_import_rsa_raw" ∷ "gnutls_pubkey_import_dsa_raw"
    ∷ "gnutls_pubkey_export_rsa_raw" ∷ "gnutls_pubkey_export_dsa_raw" ∷ "gnutls_pubkey_import_url"
    ∷ "gnutls_pubkey_import_tpm_url" ∷ "gnutls_pubkey_get_pk_algorithm" ∷ []

-- The name is declared, and the status check is attached to each function that it stands for.
unfoldable pub checked_in : String → Bool → List Binding → Bool
checked_in n found [] = found
checked_in n found (b ∷ bs) = elim (str_eq (codes (name_of b)) (codes n)) [
  | true ↦ is_checked b && checked_in n true bs
  | false ↦ checked_in n found bs
]

unfoldable all_checked : List String → List Binding → Bool
all_checked [] bs = true
all_checked (n ∷ ns) bs = checked_in n false bs && all_checked ns bs
