-- ===== src/Constants/Handshakes.antt =====
-- gnutls/library/constants.py, from `GNUTLS_HANDSHAKE_CLIENT_KEY_EXCHANGE` to `GNUTLS_OPENPGP_CERT`.
use python3_gnutls.Prelude.{pos, List, [], ◌∷◌}
use python3_gnutls.Constants.Entry.{Constant, number, words}

abbrev pub handshakes : List Constant
handshakes =
    number "GNUTLS_HANDSHAKE_CLIENT_KEY_EXCHANGE" (pos 16)
    ∷ number "GNUTLS_HANDSHAKE_FINISHED" (pos 20)
    ∷ number "GNUTLS_HANDSHAKE_HELLO_REQUEST" (pos 0)
    ∷ number "GNUTLS_HANDSHAKE_SERVER_HELLO" (pos 2)
    ∷ number "GNUTLS_HANDSHAKE_SERVER_HELLO_DONE" (pos 14)
    ∷ number "GNUTLS_HANDSHAKE_SERVER_KEY_EXCHANGE" (pos 12)
    ∷ number "GNUTLS_HANDSHAKE_SUPPLEMENTAL" (pos 23)
    ∷ number "GNUTLS_IA_APPLICATION_PAYLOAD" (pos 0)
    ∷ number "GNUTLS_IA_FINAL_PHASE_FINISHED" (pos 2)
    ∷ number "GNUTLS_IA_INTERMEDIATE_PHASE_FINISHED" (pos 1)
    ∷ number "GNUTLS_KEY_CRL_SIGN" (pos 2)
    ∷ number "GNUTLS_KEY_DATA_ENCIPHERMENT" (pos 16)
    ∷ number "GNUTLS_KEY_DECIPHER_ONLY" (pos 32768)
    ∷ number "GNUTLS_KEY_DIGITAL_SIGNATURE" (pos 128)
    ∷ number "GNUTLS_KEY_ENCIPHER_ONLY" (pos 1)
    ∷ number "GNUTLS_KEY_KEY_AGREEMENT" (pos 8)
    ∷ number "GNUTLS_KEY_KEY_CERT_SIGN" (pos 4)
    ∷ number "GNUTLS_KEY_KEY_ENCIPHERMENT" (pos 32)
    ∷ number "GNUTLS_KEY_NON_REPUDIATION" (pos 64)
    ∷ words "GNUTLS_KP_ANY" "2.5.29.37.0"
    ∷ words "GNUTLS_KP_CODE_SIGNING" "1.3.6.1.5.5.7.3.3"
    ∷ words "GNUTLS_KP_EMAIL_PROTECTION" "1.3.6.1.5.5.7.3.4"
    ∷ words "GNUTLS_KP_OCSP_SIGNING" "1.3.6.1.5.5.7.3.9"
    ∷ words "GNUTLS_KP_TIME_STAMPING" "1.3.6.1.5.5.7.3.8"
    ∷ words "GNUTLS_KP_TLS_WWW_CLIENT" "1.3.6.1.5.5.7.3.2"
    ∷ words "GNUTLS_KP_TLS_WWW_SERVER" "1.3.6.1.5.5.7.3.1"
    ∷ number "GNUTLS_KX_ANON_DH" (pos 4)
    ∷ number "GNUTLS_KX_DHE_DSS" (pos 2)
    ∷ number "GNUTLS_KX_DHE_PSK" (pos 10)
    ∷ number "GNUTLS_KX_DHE_RSA" (pos 3)
    ∷ number "GNUTLS_KX_PSK" (pos 9)
    ∷ number "GNUTLS_KX_RSA" (pos 1)
    ∷ number "GNUTLS_KX_RSA_EXPORT" (pos 6)
    ∷ number "GNUTLS_KX_SRP" (pos 5)
    ∷ number "GNUTLS_KX_SRP_DSS" (pos 8)
    ∷ number "GNUTLS_KX_SRP_RSA" (pos 7)
    ∷ number "GNUTLS_KX_UNKNOWN" (pos 0)
    ∷ number "GNUTLS_MAC_MD2" (pos 5)
    ∷ number "GNUTLS_MAC_MD5" (pos 2)
    ∷ number "GNUTLS_MAC_NULL" (pos 1)
    ∷ number "GNUTLS_MAC_RMD160" (pos 4)
    ∷ number "GNUTLS_MAC_SHA1" (pos 3)
    ∷ number "GNUTLS_MAC_SHA256" (pos 6)
    ∷ number "GNUTLS_MAC_SHA384" (pos 7)
    ∷ number "GNUTLS_MAC_SHA512" (pos 8)
    ∷ number "GNUTLS_MAC_UNKNOWN" (pos 0)
    ∷ number "GNUTLS_MASTER_SIZE" (pos 48)
    ∷ number "GNUTLS_MAX_ALGORITHM_NUM" (pos 16)
    ∷ number "GNUTLS_MAX_SESSION_ID" (pos 32)
    ∷ number "GNUTLS_NAME_DNS" (pos 1)
    ∷ words "GNUTLS_OID_LDAP_DC" "0.9.2342.19200300.100.1.25"
    ∷ words "GNUTLS_OID_LDAP_UID" "0.9.2342.19200300.100.1.1"
    ∷ words "GNUTLS_OID_PKCS9_EMAIL" "1.2.840.113549.1.9.1"
    ∷ words "GNUTLS_OID_PKIX_COUNTRY_OF_CITIZENSHIP" "1.3.6.1.5.5.7.9.4"
    ∷ words "GNUTLS_OID_PKIX_COUNTRY_OF_RESIDENCE" "1.3.6.1.5.5.7.9.5"
    ∷ words "GNUTLS_OID_PKIX_DATE_OF_BIRTH" "1.3.6.1.5.5.7.9.1"
    ∷ words "GNUTLS_OID_PKIX_GENDER" "1.3.6.1.5.5.7.9.3"
    ∷ words "GNUTLS_OID_PKIX_PLACE_OF_BIRTH" "1.3.6.1.5.5.7.9.2"
    ∷ words "GNUTLS_OID_X520_COMMON_NAME" "2.5.4.3"
    ∷ words "GNUTLS_OID_X520_COUNTRY_NAME" "2.5.4.6"
    ∷ words "GNUTLS_OID_X520_DN_QUALIFIER" "2.5.4.46"
    ∷ words "GNUTLS_OID_X520_GENERATION_QUALIFIER" "2.5.4.44"
    ∷ words "GNUTLS_OID_X520_GIVEN_NAME" "2.5.4.42"
    ∷ words "GNUTLS_OID_X520_INITIALS" "2.5.4.43"
    ∷ words "GNUTLS_OID_X520_LOCALITY_NAME" "2.5.4.7"
    ∷ words "GNUTLS_OID_X520_ORGANIZATIONAL_UNIT_NAME" "2.5.4.11"
    ∷ words "GNUTLS_OID_X520_ORGANIZATION_NAME" "2.5.4.10"
    ∷ words "GNUTLS_OID_X520_PSEUDONYM" "2.5.4.65"
    ∷ words "GNUTLS_OID_X520_STATE_OR_PROVINCE_NAME" "2.5.4.8"
    ∷ words "GNUTLS_OID_X520_SURNAME" "2.5.4.4"
    ∷ words "GNUTLS_OID_X520_TITLE" "2.5.4.12"
    ∷ number "GNUTLS_OPENPGP_CERT" (pos 0)
    ∷ []
