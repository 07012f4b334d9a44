-- ===== src/Constants/Algorithms.antt =====
-- gnutls/library/constants.py, from `GNUTLS_AL_FATAL` to `GNUTLS_DIG_SHA512`.
use python3_gnutls.Prelude.{pos, List, [], ◌∷◌}
use python3_gnutls.Constants.Entry.{Constant, number}

abbrev pub algorithms : List Constant
algorithms =
    number "GNUTLS_AL_FATAL" (pos 2)
    ∷ number "GNUTLS_AL_WARNING" (pos 1)
    ∷ number "GNUTLS_A_ACCESS_DENIED" (pos 49)
    ∷ number "GNUTLS_A_BAD_CERTIFICATE" (pos 42)
    ∷ number "GNUTLS_A_BAD_RECORD_MAC" (pos 20)
    ∷ number "GNUTLS_A_CERTIFICATE_EXPIRED" (pos 45)
    ∷ number "GNUTLS_A_CERTIFICATE_REVOKED" (pos 44)
    ∷ number "GNUTLS_A_CERTIFICATE_UNKNOWN" (pos 46)
    ∷ number "GNUTLS_A_CERTIFICATE_UNOBTAINABLE" (pos 111)
    ∷ number "GNUTLS_A_CLOSE_NOTIFY" (pos 0)
    ∷ number "GNUTLS_A_DECODE_ERROR" (pos 50)
    ∷ number "GNUTLS_A_DECOMPRESSION_FAILURE" (pos 30)
    ∷ number "GNUTLS_A_DECRYPTION_FAILED" (pos 21)
    ∷ number "GNUTLS_A_DECRYPT_ERROR" (pos 51)
    ∷ number "GNUTLS_A_EXPORT_RESTRICTION" (pos 60)
    ∷ number "GNUTLS_A_HANDSHAKE_FAILURE" (pos 40)
    ∷ number "GNUTLS_A_ILLEGAL_PARAMETER" (pos 47)
    ∷ number "GNUTLS_A_INNER_APPLICATION_FAILURE" (pos 208)
    ∷ number "GNUTLS_A_INNER_APPLICATION_VERIFICATION" (pos 209)
    ∷ number "GNUTLS_A_INSUFFICIENT_SECURITY" (pos 71)
    ∷ number "GNUTLS_A_INTERNAL_ERROR" (pos 80)
    ∷ number "GNUTLS_A_NO_RENEGOTIATION" (pos 100)
    ∷ number "GNUTLS_A_PROTOCOL_VERSION" (pos 70)
    ∷ number "GNUTLS_A_RECORD_OVERFLOW" (pos 22)
    ∷ number "GNUTLS_A_SSL3_NO_CERTIFICATE" (pos 41)
    ∷ number "GNUTLS_A_UNEXPECTED_MESSAGE" (pos 10)
    ∷ number "GNUTLS_A_UNKNOWN_CA" (pos 48)
    ∷ number "GNUTLS_A_UNKNOWN_PSK_IDENTITY" (pos 115)
    ∷ number "GNUTLS_A_UNRECOGNIZED_NAME" (pos 112)
    ∷ number "GNUTLS_A_UNSUPPORTED_CERTIFICATE" (pos 43)
    ∷ number "GNUTLS_A_UNSUPPORTED_EXTENSION" (pos 110)
    ∷ number "GNUTLS_A_USER_CANCELED" (pos 90)
    ∷ number "GNUTLS_CERT_IGNORE" (pos 0)
    ∷ number "GNUTLS_CERT_INSECURE_ALGORITHM" (pos 256)
    ∷ number "GNUTLS_CERT_INVALID" (pos 2)
    ∷ number "GNUTLS_CERT_REQUEST" (pos 1)
    ∷ number "GNUTLS_CERT_REQUIRE" (pos 2)
    ∷ number "GNUTLS_CERT_REVOKED" (pos 32)
    ∷ number "GNUTLS_CERT_SIGNER_NOT_CA" (pos 128)
    ∷ number "GNUTLS_CERT_SIGNER_NOT_FOUND" (pos 64)
    ∷ number "GNUTLS_CIPHER_3DES_CBC" (pos 3)
    ∷ number "GNUTLS_CIPHER_AES_128_CBC" (pos 4)
    ∷ number "GNUTLS_CIPHER_AES_256_CBC" (pos 5)
    ∷ number "GNUTLS_CIPHER_AES_128_CCM" (pos 19)
    ∷ number "GNUTLS_CIPHER_AES_256_CCM" (pos 20)
    ∷ number "GNUTLS_CIPHER_AES_128_CCM_8" (pos 21)
    ∷ number "GNUTLS_CIPHER_AES_256_CCM_8" (pos 22)
    ∷ number "GNUTLS_CIPHER_ARCFOUR_128" (pos 2)
    ∷ number "GNUTLS_CIPHER_ARCFOUR_40" (pos 6)
    ∷ number "GNUTLS_CIPHER_CAMELLIA_128_CBC" (pos 7)
    ∷ number "GNUTLS_CIPHER_CAMELLIA_256_CBC" (pos 8)
    ∷ number "GNUTLS_CIPHER_DES_CBC" (pos 91)
    ∷ number "GNUTLS_CIPHER_NULL" (pos 1)
    ∷ number "GNUTLS_CIPHER_RC2_40_CBC" (pos 90)
    ∷ number "GNUTLS_CIPHER_UNKNOWN" (pos 0)
    ∷ number "GNUTLS_CLIENT" (pos 2)
    ∷ number "GNUTLS_COMP_DEFLATE" (pos 2)
    ∷ number "GNUTLS_COMP_NULL" (pos 1)
    ∷ number "GNUTLS_COMP_UNKNOWN" (pos 0)
    ∷ number "GNUTLS_CRD_ANON" (pos 2)
    ∷ number "GNUTLS_CRD_CERTIFICATE" (pos 1)
    ∷ number "GNUTLS_CRD_IA" (pos 5)
    ∷ number "GNUTLS_CRD_PSK" (pos 4)
    ∷ number "GNUTLS_CRD_SRP" (pos 3)
    ∷ number "GNUTLS_CRL_REASON_AA_COMPROMISE" (pos 32768)
    ∷ number "GNUTLS_CRL_REASON_AFFILIATION_CHANGED" (pos 16)
    ∷ number "GNUTLS_CRL_REASON_CA_COMPROMISE" (pos 32)
    ∷ number "GNUTLS_CRL_REASON_CERTIFICATE_HOLD" (pos 2)
    ∷ number "GNUTLS_CRL_REASON_CESSATION_OF_OPERATION" (pos 4)
    ∷ number "GNUTLS_CRL_REASON_KEY_COMPROMISE" (pos 64)
    ∷ number "GNUTLS_CRL_REASON_PRIVILEGE_WITHDRAWN" (pos 1)
    ∷ number "GNUTLS_CRL_REASON_SUPERSEEDED" (pos 8)
    ∷ number "GNUTLS_CRL_REASON_UNUSED" (pos 128)
    ∷ number "GNUTLS_CRT_OPENPGP" (pos 2)
    ∷ number "GNUTLS_CRT_PRINT_FULL" (pos 0)
    ∷ number "GNUTLS_CRT_PRINT_ONELINE" (pos 1)
    ∷ number "GNUTLS_CRT_PRINT_UNSIGNED_FULL" (pos 2)
    ∷ number "GNUTLS_CRT_UNKNOWN" (pos 0)
    ∷ number "GNUTLS_CRT_X509" (pos 1)
    ∷ number "GNUTLS_DIG_MD2" (pos 5)
    ∷ number "GNUTLS_DIG_MD5" (pos 2)
    ∷ number "GNUTLS_DIG_NULL" (pos 1)
    ∷ number "GNUTLS_DIG_RMD160" (pos 4)
    ∷ number "GNUTLS_DIG_SHA1" (pos 3)
    ∷ number "GNUTLS_DIG_SHA224" (pos 9)
    ∷ number "GNUTLS_DIG_SHA256" (pos 6)
    ∷ number "GNUTLS_DIG_SHA384" (pos 7)
    ∷ number "GNUTLS_DIG_SHA512" (pos 8)
    ∷ []
