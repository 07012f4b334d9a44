-- ===== src/Connection/Session.antt =====
-- gnutls/connection.py, the methods of `Session` and its subclasses that compute. `S` is the state
-- behind the C session: the connection, and what was sent and received on it.
pub mod Sending
pub mod PeerStatus
pub mod Alerts
pub mod ServerName
use Prim.Native.Nat.{bit_and}
use python3_gnutls.Prelude.{
  ℕ, zero, suc, ◌-◌, Bool, true, false, not, Option, none, some, List, [], ◌∷◌, String, Bytes, ℤ,
  pos, pos_part, ◌==ℤ◌, ◌==◌, length, take, drop, if◌then◌else◌,
}
use python3_gnutls.Constants.Alert
use python3_gnutls.Errors.{
  ErrorClass, certificate_error, certificate_authority_error, certificate_security_error,
  certificate_expired_error, certificate_revoked_error, new_certificate_error, Exception, Result,
  ok, err, bind,
}
use python3_gnutls.Exec.{Exec, pure, ◌>>=◌, ◌>>◌}
use python3_gnutls.Status.{Reply, check_status}
use python3_gnutls.Buffer.{Filled, Fill, create_string_buffer}

module _ {S : Type 0} where
  -- A checked call of a library function that changes the session.
  abbrev pub checked : (S → Reply × S) → Exec S ℤ
  checked call s = let (r, s') = call s in (check_status none r, s')

  module _ (record_send : Bytes → S → Reply × S) where
    -- `send`
    unfoldable pub send : Bytes → Exec S ℤ
    send [] = pure (pos 0)
    send (b ∷ bs) = checked (record_send (b ∷ bs))

    -- The loop of `sendall`: `size` bytes are left, and `size - sent` stops at 0 where the loop ends.
    -- `none` says that the fuel ran out.
    unfoldable pub send_rest : ℕ → Bytes → ℕ → S → Option (Result (Unit {0}) × S)
    unfolding send
    send_rest fuel bytes zero s = some (ok tt, s)
    send_rest zero bytes (suc n) s = none
    send_rest (suc fuel) bytes (suc n) s =
        let (r, s') = send (drop (length bytes - suc n) bytes) s in
        elim r [
          | ok sent ↦ send_rest fuel bytes (suc n - pos_part sent) s'
          | err e ↦ some (err e, s')
        ]

    -- `sendall`, with a round for each byte at hand
    unfoldable pub sendall : Bytes → S → Option (Result (Unit {0}) × S)
    unfolding send_rest
    sendall bytes s = send_rest (length bytes) bytes (length bytes) s

  -- `recv`; the call gets the buffer and the limit.
  unfoldable pub recv : (Bytes → ℕ → S → Filled × S) → ℕ → Exec S Bytes
  recv record_recv limit s =
      let (f, s') = record_recv (create_string_buffer limit) limit s in
      (bind (check_status none f.reply) λ size. ok (take (pos_part size) f.buffer), s')

  -- `handshake` and `bye`
  unfoldable pub handshake : (S → Reply × S) → Exec S (Unit {0})
  handshake call = checked call >> pure tt

  unfoldable pub bye : (ℕ → S → Reply × S) → ℕ → Exec S (Unit {0})
  bye call how = checked (call how) >> pure tt

-- `alertdict.get(exception.__class__)` in `send_alert`
unfoldable pub alert_of : ErrorClass → Option ℕ
alert_of certificate_error = some Alert.bad_certificate
alert_of certificate_authority_error = some Alert.unknown_ca
alert_of certificate_security_error = some Alert.insufficient_security
alert_of certificate_expired_error = some Alert.certificate_expired
alert_of certificate_revoked_error = some Alert.certificate_revoked
alert_of _ = none

-- `if alert: gnutls_alert_send(…)`
abbrev pub send_found : {S : Type 0} → (ℕ → S → Reply × S) → Option ℕ → Exec S (Unit {0})
send_found alert_send none = pure tt
send_found alert_send (some zero) = pure tt
send_found alert_send (some (suc a)) = checked (alert_send (suc a)) >> pure tt

-- `send_alert`
unfoldable pub send_alert : {S : Type 0} → (ℕ → S → Reply × S) → Exception → Exec S (Unit {0})
send_alert alert_send e = send_found alert_send (alert_of e.class)

-- `peer_certificate`: the type of the peer's certificate, the chain that it sent, and what
-- `X509Certificate(…, GNUTLS_X509_FMT_DER)` makes of the first certificate.
unfoldable pub peer_certificate : Reply → List Bytes → (Bytes → Result ℕ) → Result (Option ℕ)
peer_certificate type_get peers load = bind (check_status none type_get) λ t.
    if t ==ℤ pos 1
    then elim peers [ [] ↦ ok none | der ∷ _ ↦ bind (load der) (λ c. ok (some c)) ]
    else ok none

-- `status & mask`, as a condition
unfoldable pub has_flag : ℕ → ℕ → Bool
has_flag status mask = not (bit_and status mask == 0)

-- GNUTLS_CERT_*
abbrev pub cert_invalid : ℕ
cert_invalid = 2

abbrev pub cert_revoked : ℕ
cert_revoked = 32

abbrev pub cert_signer_not_found : ℕ
cert_signer_not_found = 64

abbrev pub cert_signer_not_ca : ℕ
cert_signer_not_ca = 128

abbrev pub cert_insecure_algorithm : ℕ
cert_insecure_algorithm = 256

-- The `raise` statements of `verify_peer`, which read `self.peer_certificate` first.
unfoldable pub reject : Result (Option ℕ) → ℕ → ErrorClass → String → Result (Unit {0})
reject peer context class message =
    bind peer λ cert. err (new_certificate_error class message cert context)

unfoldable pub judge : Result (Option ℕ) → ℕ → ℕ → Result (Unit {0})
judge peer context status =
    if has_flag status cert_signer_not_found
    then reject peer context certificate_authority_error "peer certificate signer not found"
    else if has_flag status cert_signer_not_ca
    then reject peer context certificate_authority_error "peer certificate signer is not a CA"
    else if has_flag status cert_invalid
    then reject peer context certificate_error "peer certificate invalid"
    else if has_flag status cert_insecure_algorithm
    then reject peer context certificate_security_error
        "peer certificate uses an insecure algorithm "
    else if has_flag status cert_revoked
    then reject peer context certificate_revoked_error "peer certificate was revoked"
    else ok tt

-- `verify_peer`, on what `gnutls_certificate_verify_peers2` returns and the status that it sets.
unfoldable pub verify_peer : Reply → ℕ → Result (Option ℕ) → ℕ → Result (Unit {0})
verify_peer reply status peer context =
    bind (check_status none reply) λ _. judge peer context status
