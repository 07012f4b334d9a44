-- ===== src/Constants/Parameters.antt =====
-- gnutls/library/constants.py, from `GNUTLS_OPENPGP_CERT_FINGERPRINT` to `GNUTLS_PKCS7_WRITE_SPKI`.
use python3_gnutls.Prelude.{pos, List, [], ◌∷◌}
use python3_gnutls.Constants.Entry.{Constant, number}

abbrev pub parameters : List Constant
parameters =
    number "GNUTLS_OPENPGP_CERT_FINGERPRINT" (pos 1)
    ∷ number "GNUTLS_OPENPGP_FMT_BASE64" (pos 1)
    ∷ number "GNUTLS_OPENPGP_FMT_RAW" (pos 0)
    ∷ number "GNUTLS_PARAMS_DH" (pos 2)
    ∷ number "GNUTLS_PARAMS_RSA_EXPORT" (pos 1)
    ∷ number "GNUTLS_PKCS_PLAIN" (pos 1)
    ∷ number "GNUTLS_PKCS_USE_PBES2_3DES" (pos 16)
    ∷ number "GNUTLS_PKCS_USE_PKCS12_3DES" (pos 2)
    ∷ number "GNUTLS_PKCS_USE_PKCS12_ARCFOUR" (pos 4)
    ∷ number "GNUTLS_PKCS_USE_PKCS12_RC2_40" (pos 8)
    ∷ number "GNUTLS_PK_DH" (pos 3)
    ∷ number "GNUTLS_PK_DSA" (pos 2)
    ∷ number "GNUTLS_PK_ECDH_X25519" (pos 5)
    ∷ number "GNUTLS_PK_ECDSA" (pos 4)
    ∷ number "GNUTLS_PK_EDDSA_ED25519" (pos 7)
    ∷ number "GNUTLS_PK_RSA" (pos 1)
    ∷ number "GNUTLS_PK_RSA_PSS" (pos 6)
    ∷ number "GNUTLS_PK_UNKNOWN" (pos 0)
    ∷ number "GNUTLS_PSK_KEY_HEX" (pos 1)
    ∷ number "GNUTLS_PSK_KEY_RAW" (pos 0)
    ∷ number "GNUTLS_RANDOM_SIZE" (pos 32)
    ∷ number "GNUTLS_SAN_DN" (pos 6)
    ∷ number "GNUTLS_SAN_DNSNAME" (pos 1)
    ∷ number "GNUTLS_SAN_IPADDRESS" (pos 4)
    ∷ number "GNUTLS_SAN_OTHERNAME" (pos 5)
    ∷ number "GNUTLS_SAN_OTHERNAME_XMPP" (pos 1000)
    ∷ number "GNUTLS_SAN_RFC822NAME" (pos 2)
    ∷ number "GNUTLS_SAN_URI" (pos 3)
    ∷ number "GNUTLS_SERVER" (pos 1)
    ∷ number "GNUTLS_SHUT_RDWR" (pos 0)
    ∷ number "GNUTLS_SHUT_WR" (pos 1)
    ∷ number "GNUTLS_SIGN_DSA_SHA1" (pos 2)
    ∷ number "GNUTLS_SIGN_RSA_MD2" (pos 4)
    ∷ number "GNUTLS_SIGN_RSA_MD5" (pos 3)
    ∷ number "GNUTLS_SIGN_RSA_RMD160" (pos 5)
    ∷ number "GNUTLS_SIGN_RSA_SHA1" (pos 1)
    ∷ number "GNUTLS_SIGN_RSA_SHA224" (pos 9)
    ∷ number "GNUTLS_SIGN_RSA_SHA256" (pos 6)
    ∷ number "GNUTLS_SIGN_RSA_SHA384" (pos 7)
    ∷ number "GNUTLS_SIGN_RSA_SHA512" (pos 8)
    ∷ number "GNUTLS_SIGN_DSA_SHA224" (pos 10)
    ∷ number "GNUTLS_SIGN_DSA_SHA256" (pos 11)
    ∷ number "GNUTLS_SIGN_DSA_SHA384" (pos 17)
    ∷ number "GNUTLS_SIGN_DSA_SHA512" (pos 18)
    ∷ number "GNUTLS_SIGN_UNKNOWN" (pos 0)
    ∷ number "GNUTLS_SUPPLEMENTAL_USER_MAPPING_DATA" (pos 0)
    ∷ number "GNUTLS_SSL3" (pos 1)
    ∷ number "GNUTLS_TLS1_0" (pos 2)
    ∷ number "GNUTLS_TLS1_1" (pos 3)
    ∷ number "GNUTLS_TLS1_2" (pos 4)
    ∷ number "GNUTLS_VERIFY_ALLOW_ANY_X509_V1_CA_CRT" (pos 8)
    ∷ number "GNUTLS_VERIFY_ALLOW_SIGN_RSA_MD2" (pos 16)
    ∷ number "GNUTLS_VERIFY_ALLOW_SIGN_RSA_MD5" (pos 32)
    ∷ number "GNUTLS_VERIFY_ALLOW_X509_V1_CA_CRT" (pos 2)
    ∷ number "GNUTLS_VERIFY_ALLOW_BROKEN" (pos 48)
    ∷ number "GNUTLS_VERIFY_DISABLE_CA_SIGN" (pos 1)
    ∷ number "GNUTLS_VERIFY_DO_NOT_ALLOW_SAME" (pos 4)
    ∷ number "GNUTLS_VERIFY_DISABLE_TIME_CHECKS" (pos 64)
    ∷ number "GNUTLS_VERIFY_DISABLE_TRUSTED_TIME_CHECKS" (pos 128)
    ∷ number "GNUTLS_VERSION_UNKNOWN" (pos 255)
    ∷ number "GNUTLS_X509_CRT_LIST_IMPORT_FAIL_IF_EXCEED" (pos 1)
    ∷ number "GNUTLS_X509_FMT_DER" (pos 0)
    ∷ number "GNUTLS_X509_FMT_PEM" (pos 1)
    ∷ number "GNUTLS_PKCS7_EMBED_DATA" (pos 1)
    ∷ number "GNUTLS_PKCS7_INCLUDE_TIME" (pos 2)
    ∷ number "GNUTLS_PKCS7_INCLUDE_CERT" (pos 4)
    ∷ number "GNUTLS_PKCS7_WRITE_SPKI" (pos 8)
    ∷ []
