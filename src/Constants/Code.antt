-- ===== src/Constants/Code.antt =====
-- gnutls/library/constants.py: the status codes, `negsuc n` being -(n + 1).
use python3_gnutls.Prelude.{ℤ, negsuc}

abbrev pub fatal_alert_received : ℤ
fatal_alert_received = negsuc 11

abbrev pub memory : ℤ
memory = negsuc 24

abbrev pub again : ℤ
again = negsuc 27

abbrev pub no_certificate_found : ℤ
no_certificate_found = negsuc 48

abbrev pub short_memory_buffer : ℤ
short_memory_buffer = negsuc 50

abbrev pub interrupted : ℤ
interrupted = negsuc 51

abbrev pub requested_data_not_available : ℤ
requested_data_not_available = negsuc 55
