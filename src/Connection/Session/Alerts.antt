-- ===== src/Connection/Session/Alerts.antt =====
-- The alert that one side sends is the exception that the other side raises.
use python3_gnutls.Prelude.{ℕ, ◌≡◌, ap, refl, false, Option, none, some, String}
use python3_gnutls.Constants.Code
use python3_gnutls.Errors.{
  ErrorClass, is_subclass, Exception, ok, err, certificate_error, certificate_authority_error,
  certificate_security_error, certificate_expired_error, certificate_revoked_error,
}
use python3_gnutls.Exec.{pure, ◌>>◌}
use python3_gnutls.Status.{Reply, alert_map, check_status}
use python3_gnutls.Connection.Session.{checked, alert_of, send_found, send_alert}

abbrev pub fatal_alert : ℕ → Reply
fatal_alert a = record { retcode = Code.fatal_alert_received; alert = a }

some-eq : {a b : ℕ} → some a ≡ some b → a ≡ b
some-eq h = cc

at_number :
    {c : ErrorClass} {e : Exception} {n : ℕ} (a : ℕ)
    → n ≡ a
    → alert_map n ≡ some e
    → e.class ≡ c
    → (e' : Exception) × (alert_map a ≡ some e') × (e'.class ≡ c)
at_number {e = e} a same mapped class = (e, rw (← same) mapped, class)

-- The classes that have an alert.
received :
    (c : ErrorClass) (a : ℕ)
    → alert_of c ≡ some a
    → (e : Exception) × (alert_map a ≡ some e) × (e.class ≡ c)
unfolding alert_of alert_map
received certificate_error a h = at_number a (some-eq h) refl refl
received certificate_authority_error a h = at_number a (some-eq h) refl refl
received certificate_security_error a h = at_number a (some-eq h) refl refl
received certificate_expired_error a h = at_number a (some-eq h) refl refl
received certificate_revoked_error a h = at_number a (some-eq h) refl refl
received _ a h = cc

fatal_error :
    (errmsg : Option String) (a : ℕ) (e : Exception)
    → alert_map a ≡ some e
    → check_status errmsg (fatal_alert a) ≡ err e
unfolding check_status
fatal_error errmsg a e h = rw h

sends :
    {S : Type 0} (alert_send : ℕ → S → Reply × S) (c : ErrorClass) (a : ℕ)
    → alert_of c ≡ some a
    → send_found alert_send (alert_of c) ≡ (checked (alert_send a) >> pure tt)
unfolding alert_of
sends alert_send certificate_error a h = ap (λ n. checked (alert_send n) >> pure tt) (some-eq h)
sends alert_send certificate_authority_error a h =
    ap (λ n. checked (alert_send n) >> pure tt) (some-eq h)
sends alert_send certificate_security_error a h =
    ap (λ n. checked (alert_send n) >> pure tt) (some-eq h)
sends alert_send certificate_expired_error a h =
    ap (λ n. checked (alert_send n) >> pure tt) (some-eq h)
sends alert_send certificate_revoked_error a h =
    ap (λ n. checked (alert_send n) >> pure tt) (some-eq h)
sends alert_send _ a h = cc

-- `send_alert` sends the alert that stands for the class of its exception, and a library call on the
-- other side that fails with this alert raises an exception of the same class.
pub alert_exchange :
    {S : Type 0} (alert_send : ℕ → S → Reply × S) (e : Exception) (a : ℕ) (errmsg : Option String)
    → alert_of e.class ≡ some a
    → (send_alert alert_send e ≡ (checked (alert_send a) >> pure tt))
      × (e' : Exception) × (check_status errmsg (fatal_alert a) ≡ err e')
      × (e'.class ≡ e.class)
alert_exchange alert_send e a errmsg h =
    let (e', mapped, same) = received e.class a h in
    (unfold send_alert in sends alert_send e.class a h, e', fatal_error errmsg a e' mapped, same)

silent : (c : ErrorClass) → is_subclass c certificate_error ≡ false → alert_of c ≡ none
unfolding alert_of is_subclass
silent certificate_error h = cc
silent certificate_authority_error h = cc
silent certificate_security_error h = cc
silent certificate_expired_error h = cc
silent certificate_revoked_error h = cc
silent _ h = refl

-- For an exception that is no `CertificateError` no alert is sent, and nothing happens.
pub send_alert-none :
    {S : Type 0} (alert_send : ℕ → S → Reply × S) (e : Exception) (s : S)
    → is_subclass e.class certificate_error ≡ false
    → send_alert alert_send e s ≡ (ok tt, s)
send_alert-none alert_send e s h =
    unfold send_alert in ap (λ a. send_found alert_send a s) (silent e.class h)
