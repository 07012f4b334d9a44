-- ===== src/Bindings/Table.antt =====
-- gnutls/library/functions.py: the whole table. Some builds of the library have no OpenPGP or SRP
-- functions, and the source then leaves these out.
use python3_gnutls.Prelude.{if◌then◌else◌, String, Bool, List, [], ◌++◌}
use python3_gnutls.Bindings.Entry.{Binding}
use python3_gnutls.Bindings.AlertGet.{from_alert_get, from_certificate_get_peers}
use python3_gnutls.Bindings.CertificateTypeList.{from_certificate_type_list, from_dh_params_deinit}
use python3_gnutls.Bindings.KxGetId.{from_kx_get_id, from_pkcs7_verify}
use python3_gnutls.Bindings.PrivkeySignData.{
  from_privkey_sign_data, from_psk_free_server_credentials,
}
use python3_gnutls.Bindings.SessionEnableCompatibility.{
  from_session_enable_compatibility_mode, from_x509_crl_get_signature_algorithm,
}
use python3_gnutls.Bindings.X509CrqImport.{from_x509_crq_import, from_x509_crt_get_dn_oid}
use python3_gnutls.Bindings.X509CrtGet.{from_x509_crt_get_proxy, from_x509_crt_set_crl_dist_points}
use python3_gnutls.Bindings.X509DnImport.{from_x509_dn_import, from_x509_privkey_sign_data}
use python3_gnutls.Bindings.AeadCipherDecrypt.{from_aead_cipher_decrypt}
use python3_gnutls.Bindings.CertificateSetOpenpgp.{
  from_certificate_set_openpgp_key, from_openpgp_crt_get_pk_dsa_raw,
}
use python3_gnutls.Bindings.OpenpgpCrtInit.{
  from_openpgp_crt_init, from_openpgp_privkey_get_fingerprint,
}
use python3_gnutls.Bindings.OpenpgpSetRecv.{from_openpgp_set_recv_key_function}
use python3_gnutls.Bindings.SrpAllocateClient.{from_srp_allocate_client_credentials}

abbrev pub standard : List Binding
standard =
    from_alert_get ++ from_certificate_get_peers ++ from_certificate_type_list
    ++ from_dh_params_deinit ++ from_kx_get_id ++ from_pkcs7_verify ++ from_privkey_sign_data
    ++ from_psk_free_server_credentials ++ from_session_enable_compatibility_mode
    ++ from_x509_crl_get_signature_algorithm ++ from_x509_crq_import ++ from_x509_crt_get_dn_oid
    ++ from_x509_crt_get_proxy ++ from_x509_crt_set_crl_dist_points ++ from_x509_dn_import
    ++ from_x509_privkey_sign_data ++ from_aead_cipher_decrypt

abbrev pub openpgp : List Binding
openpgp =
    from_certificate_set_openpgp_key ++ from_openpgp_crt_get_pk_dsa_raw ++ from_openpgp_crt_init
    ++ from_openpgp_privkey_get_fingerprint ++ from_openpgp_set_recv_key_function

abbrev pub srp : List Binding
srp = from_srp_allocate_client_credentials

-- Which of the optional groups the source declares.
abbrev pub group : Bool → List Binding → List Binding
group present bs = if present then bs else []

-- The two `try` statements look up the first function of each group.
abbrev pub bindings : (has : String → Bool) → List Binding
bindings has =
    standard
    ++ (group (has "gnutls_certificate_set_openpgp_key") openpgp
        ++ group (has "gnutls_srp_allocate_client_credentials") srp)
