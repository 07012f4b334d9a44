-- ===== src/Constants/ErrorCodes.antt =====
-- gnutls/library/constants.py, from `GNUTLS_E_AGAIN` to `GNUTLS_HANDSHAKE_CLIENT_HELLO`.
use python3_gnutls.Prelude.{pos, negsuc, List, [], ◌∷◌}
use python3_gnutls.Constants.Entry.{Constant, number}

abbrev pub error_codes : List Constant
error_codes =
    number "GNUTLS_E_AGAIN" (negsuc 27)
    ∷ number "GNUTLS_E_APPLICATION_ERROR_MAX" (negsuc 64999)
    ∷ number "GNUTLS_E_APPLICATION_ERROR_MIN" (negsuc 65499)
    ∷ number "GNUTLS_E_ASN1_DER_ERROR" (negsuc 68)
    ∷ number "GNUTLS_E_ASN1_DER_OVERFLOW" (negsuc 76)
    ∷ number "GNUTLS_E_ASN1_ELEMENT_NOT_FOUND" (negsuc 66)
    ∷ number "GNUTLS_E_ASN1_GENERIC_ERROR" (negsuc 70)
    ∷ number "GNUTLS_E_ASN1_IDENTIFIER_NOT_FOUND" (negsuc 67)
    ∷ number "GNUTLS_E_ASN1_SYNTAX_ERROR" (negsuc 75)
    ∷ number "GNUTLS_E_ASN1_TAG_ERROR" (negsuc 72)
    ∷ number "GNUTLS_E_ASN1_TAG_IMPLICIT" (negsuc 73)
    ∷ number "GNUTLS_E_ASN1_TYPE_ANY_ERROR" (negsuc 74)
    ∷ number "GNUTLS_E_ASN1_VALUE_NOT_FOUND" (negsuc 69)
    ∷ number "GNUTLS_E_ASN1_VALUE_NOT_VALID" (negsuc 71)
    ∷ number "GNUTLS_E_BASE64_DECODING_ERROR" (negsuc 33)
    ∷ number "GNUTLS_E_BASE64_ENCODING_ERROR" (negsuc 200)
    ∷ number "GNUTLS_E_BASE64_UNEXPECTED_HEADER_ERROR" (negsuc 206)
    ∷ number "GNUTLS_E_CERTIFICATE_ERROR" (negsuc 42)
    ∷ number "GNUTLS_E_CERTIFICATE_KEY_MISMATCH" (negsuc 59)
    ∷ number "GNUTLS_E_COMPRESSION_FAILED" (negsuc 26)
    ∷ number "GNUTLS_E_CONSTRAINT_ERROR" (negsuc 100)
    ∷ number "GNUTLS_E_CRYPTO_ALREADY_REGISTERED" (negsuc 208)
    ∷ number "GNUTLS_E_DB_ERROR" (negsuc 29)
    ∷ number "GNUTLS_E_DECOMPRESSION_FAILED" (negsuc 25)
    ∷ number "GNUTLS_E_DECRYPTION_FAILED" (negsuc 23)
    ∷ number "GNUTLS_E_DH_PRIME_UNACCEPTABLE" (negsuc 62)
    ∷ number "GNUTLS_E_ENCRYPTION_FAILED" (negsuc 39)
    ∷ number "GNUTLS_E_ERROR_IN_FINISHED_PACKET" (negsuc 17)
    ∷ number "GNUTLS_E_EXPIRED" (negsuc 28)
    ∷ number "GNUTLS_E_FATAL_ALERT_RECEIVED" (negsuc 11)
    ∷ number "GNUTLS_E_FILE_ERROR" (negsuc 63)
    ∷ number "GNUTLS_E_GOT_APPLICATION_DATA" (negsuc 37)
    ∷ number "GNUTLS_E_HANDSHAKE_TOO_LARGE" (negsuc 209)
    ∷ number "GNUTLS_E_HASH_FAILED" (negsuc 32)
    ∷ number "GNUTLS_E_IA_VERIFY_FAILED" (negsuc 103)
    ∷ number "GNUTLS_E_ILLEGAL_SRP_USERNAME" (negsuc 89)
    ∷ number "GNUTLS_E_INCOMPATIBLE_CRYPTO_LIBRARY" (negsuc 201)
    ∷ number "GNUTLS_E_INCOMPATIBLE_GCRYPT_LIBRARY" (negsuc 201)
    ∷ number "GNUTLS_E_INCOMPATIBLE_LIBTASN1_LIBRARY" (negsuc 202)
    ∷ number "GNUTLS_E_INIT_LIBEXTRA" (negsuc 81)
    ∷ number "GNUTLS_E_INSUFFICIENT_CREDENTIALS" (negsuc 31)
    ∷ number "GNUTLS_E_INTERNAL_ERROR" (negsuc 58)
    ∷ number "GNUTLS_E_INTERRUPTED" (negsuc 51)
    ∷ number "GNUTLS_E_INVALID_PASSWORD" (negsuc 98)
    ∷ number "GNUTLS_E_INVALID_REQUEST" (negsuc 49)
    ∷ number "GNUTLS_E_INVALID_SESSION" (negsuc 9)
    ∷ number "GNUTLS_E_KEY_USAGE_VIOLATION" (negsuc 47)
    ∷ number "GNUTLS_E_LARGE_PACKET" (negsuc 6)
    ∷ number "GNUTLS_E_LIBRARY_VERSION_MISMATCH" (negsuc 82)
    ∷ number "GNUTLS_E_MAC_VERIFY_FAILED" (negsuc 99)
    ∷ number "GNUTLS_E_MEMORY_ERROR" (negsuc 24)
    ∷ number "GNUTLS_E_MPI_PRINT_FAILED" (negsuc 34)
    ∷ number "GNUTLS_E_MPI_SCAN_FAILED" (negsuc 22)
    ∷ number "GNUTLS_E_NO_CERTIFICATE_FOUND" (negsuc 48)
    ∷ number "GNUTLS_E_NO_CIPHER_SUITES" (negsuc 86)
    ∷ number "GNUTLS_E_NO_COMPRESSION_ALGORITHMS" (negsuc 85)
    ∷ number "GNUTLS_E_NO_TEMPORARY_DH_PARAMS" (negsuc 92)
    ∷ number "GNUTLS_E_NO_TEMPORARY_RSA_PARAMS" (negsuc 83)
    ∷ number "GNUTLS_E_OPENPGP_FINGERPRINT_UNSUPPORTED" (negsuc 93)
    ∷ number "GNUTLS_E_OPENPGP_GETKEY_FAILED" (negsuc 87)
    ∷ number "GNUTLS_E_OPENPGP_KEYRING_ERROR" (negsuc 203)
    ∷ number "GNUTLS_E_OPENPGP_SUBKEY_ERROR" (negsuc 207)
    ∷ number "GNUTLS_E_OPENPGP_UID_REVOKED" (negsuc 78)
    ∷ number "GNUTLS_E_PKCS1_WRONG_PAD" (negsuc 56)
    ∷ number "GNUTLS_E_PK_DECRYPTION_FAILED" (negsuc 44)
    ∷ number "GNUTLS_E_PK_ENCRYPTION_FAILED" (negsuc 43)
    ∷ number "GNUTLS_E_PK_SIGN_FAILED" (negsuc 45)
    ∷ number "GNUTLS_E_PK_SIG_VERIFY_FAILED" (negsuc 88)
    ∷ number "GNUTLS_E_PULL_ERROR" (negsuc 53)
    ∷ number "GNUTLS_E_PUSH_ERROR" (negsuc 52)
    ∷ number "GNUTLS_E_RANDOM_FAILED" (negsuc 205)
    ∷ number "GNUTLS_E_RECEIVED_ILLEGAL_EXTENSION" (negsuc 57)
    ∷ number "GNUTLS_E_RECEIVED_ILLEGAL_PARAMETER" (negsuc 54)
    ∷ number "GNUTLS_E_RECORD_LIMIT_REACHED" (negsuc 38)
    ∷ number "GNUTLS_E_REHANDSHAKE" (negsuc 36)
    ∷ number "GNUTLS_E_REQUESTED_DATA_NOT_AVAILABLE" (negsuc 55)
    ∷ number "GNUTLS_E_SHORT_MEMORY_BUFFER" (negsuc 50)
    ∷ number "GNUTLS_E_SRP_PWD_ERROR" (negsuc 30)
    ∷ number "GNUTLS_E_SRP_PWD_PARSING_ERROR" (negsuc 90)
    ∷ number "GNUTLS_E_SUCCESS" (pos 0)
    ∷ number "GNUTLS_E_TOO_MANY_EMPTY_PACKETS" (negsuc 77)
    ∷ number "GNUTLS_E_UNEXPECTED_HANDSHAKE_PACKET" (negsuc 18)
    ∷ number "GNUTLS_E_UNEXPECTED_PACKET" (negsuc 14)
    ∷ number "GNUTLS_E_UNEXPECTED_PACKET_LENGTH" (negsuc 8)
    ∷ number "GNUTLS_E_UNIMPLEMENTED_FEATURE" (negsuc 1249)
    ∷ number "GNUTLS_E_UNKNOWN_ALGORITHM" (negsuc 104)
    ∷ number "GNUTLS_E_UNKNOWN_CIPHER_SUITE" (negsuc 20)
    ∷ number "GNUTLS_E_UNKNOWN_CIPHER_TYPE" (negsuc 5)
    ∷ number "GNUTLS_E_UNKNOWN_COMPRESSION_ALGORITHM" (negsuc 2)
    ∷ number "GNUTLS_E_UNKNOWN_HASH_ALGORITHM" (negsuc 95)
    ∷ number "GNUTLS_E_UNKNOWN_PKCS_BAG_TYPE" (negsuc 97)
    ∷ number "GNUTLS_E_UNKNOWN_PKCS_CONTENT_TYPE" (negsuc 96)
    ∷ number "GNUTLS_E_UNKNOWN_PK_ALGORITHM" (negsuc 79)
    ∷ number "GNUTLS_E_UNSUPPORTED_CERTIFICATE_TYPE" (negsuc 60)
    ∷ number "GNUTLS_E_UNSUPPORTED_VERSION_PACKET" (negsuc 7)
    ∷ number "GNUTLS_E_UNWANTED_ALGORITHM" (negsuc 21)
    ∷ number "GNUTLS_E_WARNING_ALERT_RECEIVED" (negsuc 15)
    ∷ number "GNUTLS_E_WARNING_IA_FPHF_RECEIVED" (negsuc 102)
    ∷ number "GNUTLS_E_WARNING_IA_IPHF_RECEIVED" (negsuc 101)
    ∷ number "GNUTLS_E_X509_UNKNOWN_SAN" (negsuc 61)
    ∷ number "GNUTLS_E_X509_UNSUPPORTED_ATTRIBUTE" (negsuc 94)
    ∷ number "GNUTLS_E_X509_UNSUPPORTED_CRITICAL_EXTENSION" (negsuc 46)
    ∷ number "GNUTLS_E_X509_UNSUPPORTED_OID" (negsuc 204)
    ∷ number "GNUTLS_HANDSHAKE_CERTIFICATE_PKT" (pos 11)
    ∷ number "GNUTLS_HANDSHAKE_CERTIFICATE_REQUEST" (pos 13)
    ∷ number "GNUTLS_HANDSHAKE_CERTIFICATE_VERIFY" (pos 15)
    ∷ number "GNUTLS_HANDSHAKE_CLIENT_HELLO" (pos 1)
    ∷ []
