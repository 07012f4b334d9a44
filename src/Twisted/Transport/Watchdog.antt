-- ===== src/Twisted/Transport/Watchdog.antt =====
-- How long the peer is watched after the handshake.
use python3_gnutls.Prelude.{ℕ, ◌≡◌, ◌≢◌, ◌↔◌, true, false, none, arith}
use python3_gnutls.Errors.{ok}
use python3_gnutls.Twisted.Recurrent.{RecurrentCall, call}
use python3_gnutls.Connection.Credentials.{passed}
use python3_gnutls.Twisted.Transport.{Transport, Peer, recurrent_verify}

module _ {S : Type 0} (peer : Peer S) where
  -- One call of the watchdog, whose function is `_recurrentVerify`.
  unfoldable pub watch : ℕ → ℕ → Transport S → RecurrentCall → RecurrentCall × Transport S
  unfolding recurrent_verify call
  watch started ended t c =
      let (answer, t') = recurrent_verify peer t in ((call started (ok answer) ended c).1, t')

  -- The watchdog is planned again exactly where the connection stands, is not being closed, and the
  -- peer's certificate is still accepted.
  pub watch_iff :
      (started ended : ℕ) (t : Transport S) (c : RecurrentCall)
      → ((watch started ended t c).0.callid ≢ none) ↔ (
          (t.connected ≡ true)
          × (t.disconnecting ≡ false)
          × (peer.verify_callback passed t.session ≡ ok tt))
  unfolding watch recurrent_verify call
  watch_iff started ended t c = ground arith
