-- ===== src/Twisted/Transport/Completion.antt =====
-- A client's handshake comes to an end under Twisted.
use python3_gnutls.Prelude.{
  Bool-cases, ℕ, zero, suc, ◌<◌, ◌≡◌, refl, sym, ap, subst, ◌∙◌, ◌⊎◌, inl, inr, Bool, true, false,
  ◌&&◌, List, [], ◌∷◌, ◌++◌, arith,
}
use python3_gnutls.Errors.{gnutls_error, is_subclass, Exception, Result, ok, err}
use python3_gnutls.Twisted.Mixin.{is_blocked}
use python3_gnutls.Twisted.Transport.{
  Event, connect_done, connect_failed, connect_error, Transport, Peer, check_peer, client_checked,
  client_continue, client_handshake, start_tls,
}
use python3_gnutls.Twisted.Transport.Handshake.{check_peer-events}

-- What tells the connector how the handshake ended.
unfoldable pub is_outcome : Event → Bool
is_outcome connect_done = true
is_outcome (connect_failed e) = true
is_outcome (connect_error e) = true
is_outcome _ = false

module _ {S : Type 0} (peer : Peer S) where
  -- The reactor's calls of `doRead`, for `n` times that the socket is readable: while the transport is
  -- registered for reading, `doHandshake` until that has taken itself away.
  unfoldable pub rounds : ℕ → Transport S → Transport S
  rounds zero t = t
  rounds (suc n) t = elim (t.reading && t.handshaking) [
    | true ↦ rounds n (client_handshake peer t).1
    | false ↦ t
  ]

  -- Each time that the handshake is blocked it has come nearer to its end, and where it fails it raises
  -- a `GNUTLSError`.
  pub record Progresses : Type 0 where
    pub rank : S → ℕ
    pub lowers :
        (s : S) (e : Exception)
        → (peer.handshake s).0 ≡ err e
        → is_blocked e ≡ true
        → rank (peer.handshake s).1 < rank s
    pub fails :
        (s : S) (e : Exception)
        → (peer.handshake s).0 ≡ err e
        → is_subclass e.class gnutls_error ≡ true

  -- The handshake is over, and the connector was told so once.
  abbrev pub Settled : List Event → Transport S → Type 0
  Settled events t =
      (t.handshaking ≡ false) × (e : Event) × (is_outcome e ≡ true) × (t.events ≡ events ++ e ∷ [])

  -- The handshake goes on: nothing was told to the connector, the transport is registered for reading,
  -- and for writing exactly where the session was interrupted while it wrote.
  abbrev pub Awaits : List Event → Transport S → Type 0
  Awaits events t =
      (t.handshaking ≡ true)
      × (t.reading ≡ true)
      × (t.writing ≡ peer.blocked_writing t.session)
      × (t.events ≡ events)

  check_peer-handshaking : (t : Transport S) → (check_peer peer t).1.handshaking ≡ t.handshaking
  unfolding check_peer
  check_peer-handshaking t = ground arith

  client_checked-Settled :
      (r : Result (Unit {0})) (t : Transport S)
      → t.handshaking ≡ false
      → Settled t.events (client_checked peer r t)
  unfolding client_checked is_outcome
  client_checked-Settled (ok _) t h = (h, connect_done, refl, refl)
  client_checked-Settled (err e) t h = elim (Bool-cases (is_subclass e.class gnutls_error)) [
    | inl library ↦ (ground arith, connect_failed e, refl, ground arith)
    | inr other ↦ (ground arith, connect_error e, refl, ground arith)
  ]

  client_continue-Settled :
      (r : Result (Unit {0})) (t : Transport S)
      → ((e : Exception)
          → r ≡ err e
          → (is_blocked e ≡ false) × (is_subclass e.class gnutls_error ≡ true))
      → Settled t.events (client_continue peer r t).1
  unfolding client_continue is_outcome
  client_continue-Settled (err e) t h =
      let (unblocked, library) = h e refl in (ground arith, connect_failed e, refl, ground arith)
  client_continue-Settled (ok _) t h =
      let t' = record t { handshaking = false; reading = false } in
      let (over, e, told, events) =
        client_checked-Settled (check_peer peer t').0 (check_peer peer t').1
          (check_peer-handshaking t') in
      (over, e, told, events ∙ ap (λ es. es ++ e ∷ []) (check_peer-events peer t'))

  -- A blocked handshake leaves everything as it was, but for the session and the wish to write.
  client_continue_blocked :
      (e : Exception) (t : Transport S)
      → is_blocked e ≡ true
      → let t' = (client_continue peer (err e) t).1 in
        (t'.handshaking ≡ t.handshaking)
        × (t'.events ≡ t.events)
        × (t'.session ≡ t.session)
        × (t'.reading ≡ t.reading)
  unfolding client_continue
  client_continue_blocked e t h = (ground arith, ground arith, ground arith, ground arith)

  rounds_over : (n : ℕ) (t : Transport S) → t.handshaking ≡ false → rounds n t ≡ t
  unfolding rounds
  rounds_over zero t h = refl
  rounds_over (suc n) t h = ground arith

  rounds_again :
      (n : ℕ) (t : Transport S)
      → t.reading ≡ true
      → t.handshaking ≡ true
      → rounds (suc n) t ≡ rounds n (client_handshake peer t).1
  unfolding rounds
  rounds_again n t r h = ground arith

  -- The transport that `doHandshake` hands on after the call of the session
  abbrev attempted : Transport S → Transport S
  attempted t = record t { writing = false; session = (peer.handshake t.session).1 }

  Settled-rounds :
      (n : ℕ) (events : List Event) (t : Transport S)
      → Settled events t
      → Settled events (rounds n t)
  Settled-rounds n events t settled =
      subst (Settled events) (sym (rounds_over n t settled.0)) settled

  -- What is left to the other rounds, when a handshake has ended with `r`
  after_attempt :
      (n : ℕ) (r : Result (Unit {0})) (t : Transport S)
      → t.reading ≡ true
      → t.handshaking ≡ true
      → ((e : Exception) → r ≡ err e → is_subclass e.class gnutls_error ≡ true)
      → ((e : Exception) (next : Transport S)
          → r ≡ err e
          → is_blocked e ≡ true
          → next.reading ≡ true
          → next.handshaking ≡ true
          → next.session ≡ t.session
          → Settled next.events (rounds n next))
      → Settled t.events (rounds n (client_continue peer r t).1)
  after_attempt n (ok _) t reads h library later =
      Settled-rounds n t.events _ (client_continue-Settled (ok tt) t (λ e raised. absurd (cc)))
  after_attempt n (err e) t reads h library later = elim (Bool-cases (is_blocked e)) [
    | inr unblocked ↦
        Settled-rounds n t.events _
          (client_continue-Settled (err e) t (λ x raised. (ground arith, library x raised)))
    | inl blocked ↦
        let next = (client_continue peer (err e) t).1 in
        let (handshakes, told, kept, stays) = client_continue_blocked e t blocked in
        subst (λ events. Settled events (rounds n next)) told
          (later e next refl blocked (stays ∙ reads) (handshakes ∙ h) kept)
  ]

  rounds_below :
      (p : Progresses) (n : ℕ) (t : Transport S)
      → t.reading ≡ true
      → t.handshaking ≡ true
      → p.rank t.session < n
      → Settled t.events (rounds n t)
  unfolding client_handshake
  rounds_below p zero t r h below = absurd (omega arith)
  rounds_below p (suc n) t r h below = subst (Settled t.events) (sym (rounds_again n t r h)) (
      after_attempt n (peer.handshake t.session).0 (attempted t) r h (p.fails t.session)
        (λ e next raised blocked reads handshakes kept. rounds_below p n next reads handshakes (
          subst (λ s. p.rank s < n) (sym kept)
            (omega (arith, p.lowers t.session e raised blocked)))))

  -- Where a blocked attempt leaves the registrations
  waits :
      (e : Exception) (t : Transport S)
      → is_blocked e ≡ true
      → t.writing ≡ false
      → (client_continue peer (err e) t).1.writing ≡ peer.blocked_writing t.session
  unfolding client_continue
  waits e t h w = ground arith

  abbrev pub Going : List Event → Transport S → Type 0
  Going events t = Settled events t ⊎ Awaits events t

  attempt-Going :
      (p : Progresses) (t : Transport S)
      → t.reading ≡ true
      → t.handshaking ≡ true
      → Going t.events (client_handshake peer t).1
  unfolding client_handshake
  attempt-Going p t reads h = outcome (peer.handshake t.session).0 refl
    where
      outcome :
          (r : Result (Unit {0}))
          → (peer.handshake t.session).0 ≡ r
          → Going t.events (client_continue peer r (attempted t)).1
      outcome (ok _) returned =
          inl (client_continue-Settled (ok tt) (attempted t) (λ e raised. absurd (cc)))
      outcome (err e) raised = elim (Bool-cases (is_blocked e)) [
        | inl blocked ↦
            let (handshakes, told, kept, stays) = client_continue_blocked e (attempted t) blocked in
            inr (
              handshakes ∙ h,
              stays ∙ reads,
              waits e (attempted t) blocked refl ∙ ap peer.blocked_writing (sym kept),
              told,
            )
        | inr unblocked ↦ inl (
            client_continue-Settled (err e) (attempted t)
              (λ x same. (ground arith, p.fails t.session x (raised ∙ same))))
      ]

  rounds-Going :
      (p : Progresses) (events : List Event) (n : ℕ) (t : Transport S)
      → Going events t
      → Going events (rounds n t)
  unfolding rounds
  rounds-Going p events n t (inl settled) = inl (Settled-rounds n events t settled)
  rounds-Going p events zero t (inr going) = inr going
  rounds-Going p events (suc n) t (inr (handshakes, reads, writes, told)) =
      subst (Going events) (sym (rounds_again n t reads handshakes)) (
        rounds-Going p events n (client_handshake peer t).1 (
          subst (λ es. Going es (client_handshake peer t).1) told
            (attempt-Going p t reads handshakes)))

  -- Where each blocked attempt brings the handshake nearer to its end, and it fails with a
  -- `GNUTLSError`, a client that has started TLS finishes the handshake if its socket becomes readable
  -- often enough: `doHandshake` takes itself away, and the connector is told once how it ended. At
  -- any time before, it is told nothing, and the transport is registered for reading, and for writing
  -- exactly where the session was interrupted while it wrote.
  pub start_tls-Settled :
      (p : Progresses) (t : Transport S)
      → Settled t.events (rounds (p.rank t.session) (start_tls peer t).1)
        × ((n : ℕ)
            → Settled t.events (rounds n (start_tls peer t).1)
              ⊎ Awaits t.events (rounds n (start_tls peer t).1))
  unfolding start_tls
  start_tls-Settled p t =
      let begun = record t { handshaking = true; reading = true } in
      let n = p.rank t.session in
      (
        subst (Settled t.events) (rounds_again n begun refl refl)
            (rounds_below p (suc n) begun refl refl (omega arith)),
        λ k. rounds-Going p t.events k _ (attempt-Going p begun refl refl),
      )
