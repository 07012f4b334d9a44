-- ===== src/Tests/Reactor.antt =====
-- gnutls/interfaces/twisted/__init__.py over a session that is the number of interruptions ahead, and
-- the declared functions of a library that has all of them.
use python3_gnutls.Prelude.{
  All, ℕ, zero, suc, ◌+◌, ◌-◌, ◌*◌, ◌<◌, ◌≡◌, refl, ◌≢◌, ◌↔◌, ◌⊎◌, true, false, none, some, [], ◌∷◌,
  ◌++◌, arith,
}
use python3_gnutls.Errors.{
  gnutls_error, is_subclass, operation_interrupted, text, Exception, new, Result, ok, err,
}
use python3_gnutls.Exec.{Exec}
use python3_gnutls.Bindings.Table.{bindings}
use python3_gnutls.Bindings.Symbols.{Declared, bindings-Declared}
use python3_gnutls.Twisted.Recurrent.{new_call}
use python3_gnutls.Twisted.Recurrent.Schedule.{calls, state, calls_lem}
use python3_gnutls.Twisted.Mixin.{is_blocked, is_interrupted, Returned, write_some_data}
use python3_gnutls.Twisted.Mixin.Settling.{Reported, Retried, Settles, write_some_data_lem}
use python3_gnutls.Twisted.Transport.{
  Transport, Peer, start_tls, client_handshake, server_handshake,
}
use python3_gnutls.Twisted.Transport.Completion.{
  Awaits, Progresses, Settled, rounds, start_tls-Settled,
}
use python3_gnutls.Twisted.Transport.Handshake.{
  announced, Admitted, client_handshake_iff, server_handshake_iff,
}
use python3_gnutls.Twisted.Transport.Watchdog.{watch, watch_iff}
use python3_gnutls.Connection.Credentials.{passed}

bindings-Declared_example : All Declared (bindings (λ n. true))
bindings-Declared_example = bindings-Declared (λ n. true)

calls_example :
    calls ((100, 103) ∷ ((111, 115) ∷ []) ++ (121, 122) ∷ []) (new_call 10)
    ≡ state 10 (100 + 2 * 10) (some (100 + 2 * 10 + 10 - 122))
calls_example = calls_lem 10 100 103 ((111, 115) ∷ []) 121 122

abbrev interruption : Exception
interruption = new operation_interrupted (text "interrupted")

-- Interrupted as often as the number says, at most twice.
abbrev twice : {A : Type 0} → A → Exec ℕ A
twice a zero = (ok a, 0)
twice a (suc zero) = (err interruption, 0)
twice a (suc (suc n)) = (err interruption, 1)

abbrev twice_rank : ℕ → ℕ
twice_rank zero = 0
twice_rank (suc zero) = 1
twice_rank (suc (suc n)) = 2

twice_bounded : (s : ℕ) → twice_rank s < 3
twice_bounded zero = omega arith
twice_bounded (suc zero) = omega arith
twice_bounded (suc (suc n)) = omega arith

twice_lowers :
    {A : Type 0} (a : A) (s : ℕ) (e : Exception)
    → (twice a s).0 ≡ err e
    → is_interrupted e ≡ true
    → twice_rank (twice a s).1 < twice_rank s
twice_lowers a zero e h i = absurd (cc)
twice_lowers a (suc zero) e h i = omega arith
twice_lowers a (suc (suc n)) e h i = omega arith

twice-Settles : {A : Type 0} (a : A) → Settles 3 (twice a)
twice-Settles a = record { rank = twice_rank; bounded = twice_bounded; lowers = twice_lowers a }

write_some_data_example :
    (r : Result (Returned ℕ)) × (last : ℕ) × Retried {A = ℕ} (twice {A = ℕ} 5) 2 last
    × Reported (twice {A = ℕ} 5 last).0 r
    × (write_some_data 3 (twice {A = ℕ} 5) 2 ≡ some (r, (twice {A = ℕ} 5 last).1))
write_some_data_example = write_some_data_lem 3 (twice 5) 2 (twice-Settles 5)

abbrev calm_peer : Peer ℕ
calm_peer = record {
  handshake = twice tt;
  blocked_writing = λ s. true;
  verify_peer = λ s. ok tt;
  verify_callback = λ p s. ok tt;
  wants_verify = true;
  verify_period = 300;
  close = λ e s. s;
}

abbrev fresh : Transport ℕ
fresh = record {
  session = 0;
  reading = true;
  writing = false;
  handshaking = true;
  ending = false;
  connected = true;
  disconnecting = false;
  close_reason = none;
  watchdog = none;
  events = [];
}

not_announced : announced [] ≡ false
unfolding announced
not_announced = refl

client_handshake_iff_example :
    (announced (client_handshake calm_peer fresh).1.events ≡ true)
    ↔ (((calm_peer.handshake 0).0 ≡ ok tt) × Admitted calm_peer (calm_peer.handshake 0).1)
client_handshake_iff_example = client_handshake_iff calm_peer fresh not_announced

server_handshake_iff_example :
    (announced (server_handshake calm_peer fresh).1.events ≡ true)
    ↔ (((calm_peer.handshake 0).0 ≡ ok tt) × Admitted calm_peer (calm_peer.handshake 0).1)
server_handshake_iff_example = server_handshake_iff calm_peer fresh not_announced

watch_iff_example :
    ((watch calm_peer 10 11 fresh (new_call 300)).0.callid ≢ none)
    ↔ ((true ≡ true) × (false ≡ false) × (calm_peer.verify_callback passed 0 ≡ ok tt))
watch_iff_example = watch_iff calm_peer 10 11 fresh (new_call 300)

fails_never :
    (s : ℕ) (e : Exception) → (twice tt s).0 ≡ err e → is_subclass e.class gnutls_error ≡ true
unfolding is_subclass
fails_never zero e h = absurd (cc)
fails_never (suc zero) e h = ground arith
fails_never (suc (suc n)) e h = ground arith

blocked_lowers :
    (s : ℕ) (e : Exception)
    → (twice tt s).0 ≡ err e
    → is_blocked e ≡ true
    → twice_rank (twice tt s).1 < twice_rank s
blocked_lowers zero e h i = absurd (cc)
blocked_lowers (suc zero) e h i = omega arith
blocked_lowers (suc (suc n)) e h i = omega arith

abbrev calm_progress : Progresses calm_peer
calm_progress = record { rank = twice_rank; lowers = blocked_lowers; fails = fails_never }

-- Two interruptions, and then a connection
start_tls-Settled_example :
    Settled calm_peer [] (rounds calm_peer 2 (start_tls calm_peer (record fresh { session = 2 })).1)
    × ((n : ℕ)
        → Settled calm_peer []
            (rounds calm_peer n (start_tls calm_peer (record fresh { session = 2 })).1)
          ⊎ Awaits calm_peer []
              (rounds calm_peer n (start_tls calm_peer (record fresh { session = 2 })).1))
start_tls-Settled_example = start_tls-Settled calm_peer calm_progress (record fresh { session = 2 })
