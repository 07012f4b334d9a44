-- ===== src/Twisted/Transport/Handshake.antt =====
-- What ends a handshake under Twisted.
use python3_gnutls.Prelude.{
  ap, ◌≡◌, refl, inl, inr, ◌∙◌, ◌↔◌, ◌⊎◌, Bool, true, false, ◌||◌, List, [], ◌∷◌, ◌++◌, arith,
}
use python3_gnutls.Connection.Credentials.{raised, passed}
use python3_gnutls.Errors.{Exception, Result, ok, err}
use python3_gnutls.Twisted.Transport.{
  Event, connect_done, connection_made, connect_failed, connect_error, losing, Transport, Peer,
  lose_connection, preverify, check_peer, client_checked, client_continue, client_handshake,
  server_checked, server_continue, server_handshake,
}

-- Whether the protocol was told that its connection stands.
abbrev pub is_start : Event → Bool
is_start connect_done = true
is_start connection_made = true
is_start _ = false

unfoldable pub announced : List Event → Bool
announced [] = false
announced (e ∷ es) = is_start e || announced es

announced-append :
    (es : List Event) (e : Event) → announced es ≡ false → announced (es ++ e ∷ []) ≡ is_start e
unfolding announced
announced-append [] e h = ground arith
announced-append (x ∷ es) e h = ground (arith, announced-append es e)

module _ {S : Type 0} (peer : Peer S) where
  -- How a peer is admitted: the credentials ask for no verification; the session's own verification
  -- passes, and the callback accepts the peer; or the former raises an exception, and the callback,
  -- which is told of it, accepts the peer all the same.
  pub data Admitted (s : S) : Type 0 where
    unasked : peer.wants_verify ≡ false → Admitted s
    verified : peer.verify_peer s ≡ ok tt → peer.verify_callback passed s ≡ ok tt → Admitted s
    excused :
        (e : Exception)
        → peer.verify_peer s ≡ err e
        → peer.verify_callback (raised e) s ≡ ok tt
        → Admitted s

  abbrev Verified : S → Type 0
  Verified s = (peer.wants_verify ≡ false) ⊎ (peer.verify_callback (preverify peer s) s ≡ ok tt)

  Verified-Admitted : (s : S) → Verified s → Admitted s
  Verified-Admitted s (inl off) = unasked off
  Verified-Admitted s (inr h) = judged (peer.verify_peer s) refl h
    where
      judged :
          (r : Result (Unit {0}))
          → peer.verify_peer s ≡ r
          → peer.verify_callback (elim r [ ok _ ↦ passed | err e ↦ raised e ]) s ≡ ok tt
          → Admitted s
      judged (ok _) e h = verified e h
      judged (err x) e h = excused x e h

  Admitted-Verified : (s : S) → Admitted s → Verified s
  Admitted-Verified s (unasked off) = inl off
  Admitted-Verified s (verified e h) = inr (rw (e, preverify) h)
  Admitted-Verified s (excused x e h) = inr (rw (e, preverify) h)

  both_ways : {P Q : Type 0} (s : S) → P ↔ (Q × Verified s) → P ↔ (Q × Admitted s)
  both_ways s (there, back) = (
    λ p. let (q, v) = there p in (q, Verified-Admitted s v),
    λ a. back (a.0, Admitted-Verified s a.1),
  )

  check_peer_iff : (t : Transport S) → ((check_peer peer t).0 ≡ ok tt) ↔ Verified t.session
  unfolding check_peer
  check_peer_iff t = ground arith

  pub check_peer-events : (t : Transport S) → (check_peer peer t).1.events ≡ t.events
  unfolding check_peer
  check_peer-events t = ground arith

  client_checked_iff :
      (r : Result (Unit {0})) (t : Transport S)
      → announced t.events ≡ false
      → (announced (client_checked peer r t).events ≡ true) ↔ (r ≡ ok tt)
  unfolding client_checked
  client_checked_iff (ok _) t h = ground (arith, announced-append t.events connect_done h)
  client_checked_iff (err e) t h = ground (
    arith,
    announced-append t.events (connect_failed e) h,
    announced-append t.events (connect_error e) h,
  )

  client_continue_iff :
      (r : Result (Unit {0})) (t : Transport S)
      → announced t.events ≡ false
      → (announced (client_continue peer r t).1.events ≡ true) ↔ ((r ≡ ok tt) × Verified t.session)
  unfolding client_continue
  client_continue_iff (err e) t h = ground (arith, announced-append t.events (connect_failed e) h)
  client_continue_iff (ok _) t h =
      let t' = record t { handshaking = false; reading = false } in
      ground (
        arith,
        check_peer_iff t',
        client_checked_iff (check_peer peer t').0 (check_peer peer t').1
            (ap announced (check_peer-events t') ∙ h),
      )

  server_checked_iff :
      (r : Result (Unit {0})) (t : Transport S)
      → announced t.events ≡ false
      → (announced (server_checked peer r t).events ≡ true) ↔ (r ≡ ok tt)
  unfolding server_checked lose_connection
  server_checked_iff (ok _) t h = ground (arith, announced-append t.events connection_made h)
  server_checked_iff (err e) t h = ground (arith, announced-append t.events (losing e) h)

  server_continue_iff :
      (r : Result (Unit {0})) (t : Transport S)
      → announced t.events ≡ false
      → (announced (server_continue peer r t).1.events ≡ true) ↔ ((r ≡ ok tt) × Verified t.session)
  unfolding server_continue
  server_continue_iff (err e) t h = ground arith
  server_continue_iff (ok _) t h =
      let t' = record t { handshaking = false; reading = true } in
      ground (
        arith,
        check_peer_iff t',
        server_checked_iff (check_peer peer t').0 (check_peer peer t').1
            (ap announced (check_peer-events t') ∙ h),
      )

  -- The protocol of a client is told that it is connected exactly where the handshake returned and the
  -- peer, as it was after it, is admitted: the credentials ask for no verification, or `verify_peer` of
  -- the session returns and the callback accepts the peer, or it raises an exception and the callback
  -- accepts the peer although it is told of that.
  pub client_handshake_iff :
      (t : Transport S)
      → announced t.events ≡ false
      → (announced (client_handshake peer t).1.events ≡ true)
        ↔ (((peer.handshake t.session).0 ≡ ok tt) × Admitted (peer.handshake t.session).1)
  unfolding client_handshake
  client_handshake_iff t h =
      let (r, s) = peer.handshake t.session in
      both_ways s (client_continue_iff r (record t { writing = false; session = s }) h)

  -- The protocol of a server gets its connection exactly where the handshake returned and the peer, as
  -- it was after it, is admitted: the credentials ask for no verification, or `verify_peer` of the
  -- session returns and the callback accepts the peer, or it raises an exception and the callback
  -- accepts the peer although it is told of that.
  pub server_handshake_iff :
      (t : Transport S)
      → announced t.events ≡ false
      → (announced (server_handshake peer t).1.events ≡ true)
        ↔ (((peer.handshake t.session).0 ≡ ok tt) × Admitted (peer.handshake t.session).1)
  unfolding server_handshake
  server_handshake_iff t h =
      let (r, s) = peer.handshake t.session in
      both_ways s (server_continue_iff r (record t { writing = false; session = s }) h)
