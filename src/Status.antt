-- ===== src/Status.antt =====
-- gnutls/library/errors.py: the check that every library function returning an integer goes through.
pub mod Laws
use python3_gnutls.Prelude.{
  ℕ, Bool, Option, none, some, String, ℤ, pos, negsuc, ◌||◌, leb_ℤ, ◌==ℤ◌, ◌==◌, if◌then◌else◌,
}
use python3_gnutls.Constants.Alert
use python3_gnutls.Constants.Code
use python3_gnutls.Errors.{
  ErrorClass, memory_error, gnutls_error, operation_would_block, operation_interrupted,
  certificate_error, certificate_authority_error, certificate_security_error,
  certificate_expired_error, certificate_revoked_error, requested_data_not_available, Message, text,
  strerror, error_message, Exception, new, Result, ok, err,
}

-- What a library function returns, with the alert that `gnutls_alert_get` would report after it.
pub record Reply : Type 0 where
  pub retcode : ℤ
  pub alert : ℕ

abbrev pub returns : ℤ → Reply
returns n = record { retcode = n; alert = 0 }

-- `ErrorHandler.alert_map`
unfoldable pub alert_map : ℕ → Option Exception
alert_map a =
    if a == Alert.bad_certificate
    then some (new certificate_error (text "peer rejected our certificate as invalid"))
    else if a == Alert.unknown_ca
    then some
        (new certificate_authority_error (text "peer does not trust our certificate authority"))
    else if a == Alert.insufficient_security
    then some (new certificate_security_error (text "peer rejected us on insufficient security"))
    else if a == Alert.certificate_expired
    then some (new certificate_expired_error (text "peer rejected our certificate as expired"))
    else if a == Alert.certificate_revoked
    then some (new certificate_revoked_error (text "peer rejected our certificate as revoked"))
    else none

abbrev or_else : Option Exception → Exception → Exception
or_else none e = e
or_else (some x) e = x

-- `getattr(function, "errmsg", None) or ErrorMessage(retcode)`
abbrev errmsg_or_code : Option String → ℤ → Message
errmsg_or_code none c = error_message c
errmsg_or_code (some s) c = text s

-- The exception that a negative status raises.
unfoldable pub status_error : Option String → Reply → Exception
unfolding alert_map
status_error errmsg r =
    if r.retcode ==ℤ negsuc 0
    then new gnutls_error (errmsg_or_code errmsg r.retcode)
    else if r.retcode ==ℤ Code.again
    then new operation_would_block (strerror r.retcode)
    else if r.retcode ==ℤ Code.interrupted
    then new operation_interrupted (strerror r.retcode)
    else if r.retcode ==ℤ Code.memory || r.retcode ==ℤ Code.short_memory_buffer
    then new memory_error (error_message r.retcode)
    else if r.retcode ==ℤ Code.no_certificate_found
    then new certificate_security_error (strerror r.retcode)
    else if r.retcode ==ℤ Code.fatal_alert_received
    then or_else (alert_map r.alert) (new gnutls_error (error_message r.retcode))
    else if r.retcode ==ℤ Code.requested_data_not_available
    then new requested_data_not_available (strerror r.retcode)
    else new gnutls_error (error_message r.retcode)

-- `ErrorHandler.check_status`; `errmsg` is the attribute of the function, where it has one.
unfoldable pub check_status : Option String → Reply → Result ℤ
unfolding status_error
check_status errmsg r =
    if leb_ℤ (pos 0) r.retcode then ok r.retcode else err (status_error errmsg r)
