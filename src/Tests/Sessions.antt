-- ===== src/Tests/Sessions.antt =====
-- gnutls/connection.py, the sessions, over a connection that is the list of the bytes sent.
use python3_gnutls.Prelude.{
  leb, if◌then◌else◌, Bytes, length, take, drop, length-take, pos, ◌≤ℤ◌, ℕ, zero, suc, ◌≤◌, ◌<◌,
  ◌≡◌, refl, ap, ◌↔◌, ◌⊎◌, true, none, some, List, [], ◌∷◌, ◌++◌, arith,
}
use python3_gnutls.Errors.{
  certificate_error, certificate_authority_error, certificate_expired_error, Exception,
  new_certificate_error, ok, err,
}
use python3_gnutls.Exec.{pure, ◌>>◌}
use python3_gnutls.Constants.Code
use python3_gnutls.Status.{Reply, returns, check_status}
use python3_gnutls.Text.{codes}
use python3_gnutls.Connection.Session.{
  checked, sendall, alert_of, send_alert, has_flag, cert_invalid, reject, judge, verify_peer,
}
use python3_gnutls.Connection.Session.Sending.{accepted, Sends, Delivered, sendall_lem}
use python3_gnutls.Connection.Session.PeerStatus.{IsClean, verify_peer_iff, judge_class}
use python3_gnutls.Connection.Session.Alerts.{fatal_alert, alert_exchange}
use python3_gnutls.Connection.Session.ServerName.{GetName, name_dns}

-- Takes three bytes at most.
abbrev three_send : Bytes → Bytes → Reply × Bytes
three_send bytes wire = (returns (pos (length (take 3 bytes))), wire ++ take 3 bytes)

some_taken : (b : ℕ) (bs : Bytes) → 0 < length (take 3 (b ∷ bs))
some_taken b bs = omega arith

taken_at_most : (n : ℕ) (bytes : Bytes) → length (take n bytes) ≤ length bytes
taken_at_most n bytes = omega (arith, length-take n bytes)

retaken : (n : ℕ) (bytes : Bytes) → take n bytes ≡ take (length (take n bytes)) bytes
retaken zero bytes = refl
retaken (suc n) [] = refl
retaken (suc n) (b ∷ bytes) = ap (λ l. b ∷ l) (retaken n bytes)

three_sends : Sends three_send (λ wire. wire)
three_sends [] wire h = absurd (h refl)
three_sends (b ∷ bs) wire h =
    accepted (length (take 3 (b ∷ bs))) (some_taken b bs) (taken_at_most 3 (b ∷ bs)) refl
      (ap (λ l. wire ++ l) (retaken 3 (b ∷ bs)))

sendall_example :
    Delivered three_send
      (λ wire. wire)
      (codes "hello world")
      []
      (sendall three_send (codes "hello world") [])
sendall_example = sendall_lem three_send (λ wire. wire) three_sends (codes "hello world") []

verify_peer_iff_example :
    (verify_peer (returns (pos 0)) 66 (ok (some 7)) 1 ≡ ok tt) ↔ ((pos 0 ≤ℤ pos 0) × IsClean 66)
verify_peer_iff_example = verify_peer_iff (returns (pos 0)) 66 (ok (some 7)) 1

-- GNUTLS_CERT_INVALID beside GNUTLS_CERT_REVOKED.
abbrev revoked_status : ℕ
revoked_status = 34

abbrev refused : Exception
refused = new_certificate_error certificate_error "peer certificate invalid" (some 7) 1

revoked_refused : judge (ok (some 7)) 1 revoked_status ≡ err refused
unfolding judge reject has_flag
revoked_refused = refl

invalid_set : has_flag revoked_status cert_invalid ≡ true
unfolding has_flag
invalid_set = refl

judge_class_example :
    (refused.class ≡ certificate_authority_error) ⊎ (refused.class ≡ certificate_error)
judge_class_example =
    judge_class (some 7) 1 revoked_status refused (λ h. invalid_set) (λ h. invalid_set)
      revoked_refused

-- Appends the alert to the ones sent.
abbrev alert_logged : ℕ → List ℕ → Reply × List ℕ
alert_logged a sent = (returns (pos 0), sent ++ a ∷ [])

abbrev expired : Exception
expired = new_certificate_error certificate_expired_error "peer certificate has expired" none 1

expired_alert : alert_of expired.class ≡ some 45
unfolding alert_of
expired_alert = refl

alert_exchange_example :
    (send_alert alert_logged expired ≡ (checked (alert_logged 45) >> pure tt))
    × (e' : Exception) × (check_status none (fatal_alert 45) ≡ err e')
    × (e'.class ≡ certificate_expired_error)
alert_exchange_example = alert_exchange alert_logged expired 45 none expired_alert

-- One DNS name.
abbrev one_name : GetName
one_name b n zero =
    if leb n 3
    then record {
      reply = returns Code.short_memory_buffer;
      buffer = b;
      size = 3;
      hostname_type = 0;
    }
    else record {
      reply = returns (pos 0);
      buffer = codes "a.b" ++ 0 ∷ drop 4 b;
      size = 3;
      hostname_type = name_dns;
    }
one_name b n (suc i) = record {
  reply = returns Code.requested_data_not_available;
  buffer = b;
  size = n;
  hostname_type = 0;
}
