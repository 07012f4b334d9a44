-- ===== src/Constants/Alert.antt =====
-- gnutls/library/constants.py: the alert numbers.
use python3_gnutls.Prelude.{ℕ}

abbrev pub bad_certificate : ℕ
bad_certificate = 42

abbrev pub certificate_revoked : ℕ
certificate_revoked = 44

abbrev pub certificate_expired : ℕ
certificate_expired = 45

abbrev pub unknown_ca : ℕ
unknown_ca = 48

abbrev pub insufficient_security : ℕ
insufficient_security = 71
