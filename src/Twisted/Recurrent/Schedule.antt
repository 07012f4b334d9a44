-- ===== src/Twisted/Recurrent/Schedule.antt =====
-- When the calls of a `RecurrentCall` happen.
use native.Mathlib.Nat.{suc-mul}
use python3_gnutls.Prelude.{
  arith, length, ℕ, suc, ◌+◌, ◌-◌, ◌*◌, ◌≡◌, ap, ◌∙◌, Option, some, List, [], ◌∷◌, ◌++◌,
}
use python3_gnutls.Errors.{ok}
use python3_gnutls.Twisted.Recurrent.{keep_running, RecurrentCall, new_call, call}

-- The calls one after the other, each with its start and its end, of a function that keeps running.
unfoldable pub calls : List (ℕ × ℕ) → RecurrentCall → RecurrentCall
unfolding call
calls [] c = c
calls ((started, ended) ∷ rs) c = calls rs (call started (ok keep_running) ended c).1

abbrev pub state : ℕ → ℕ → Option ℕ → RecurrentCall
state period now pending = record {
  period = period;
  times = some (now, now + period);
  callid = pending;
}

times_add : (n period now : ℕ) → now + period + n * period ≡ now + suc n * period
times_add n period now = omega (arith, suc-mul n period)

later :
    (runs : List (ℕ × ℕ)) (period now : ℕ) (pending : Option ℕ) (started ended : ℕ)
    → calls (runs ++ (started, ended) ∷ []) (state period now pending)
      ≡ state period
          (now + suc (length runs) * period)
          (some (now + suc (length runs) * period + period - ended))
unfolding calls
later [] period now pending started ended =
    let e : now + period ≡ now + 1 * period = omega arith in
    ap (λ m. state period m (some (m + period - ended))) e
later ((s, e) ∷ runs) period now pending started ended =
    later runs period (now + period) (some (now + period + period - e)) started ended
    ∙ ap (λ m. state period m (some (m + period - ended)))
        (times_add (suc (length runs)) period now)

-- However long each call takes and however late it starts, the calls of a function that keeps running
-- are planned at the start of the first one plus multiples of the period: after `n` calls more, the
-- next is due at `n + 1` periods after it, and the reactor waits for what is left until then.
pub calls_lem :
    (period first first_end : ℕ) (runs : List (ℕ × ℕ)) (started ended : ℕ)
    → calls ((first, first_end) ∷ (runs ++ (started, ended) ∷ [])) (new_call period)
      ≡ state period
          (first + suc (length runs) * period)
          (some (first + suc (length runs) * period + period - ended))
unfolding calls
calls_lem period first first_end runs started ended =
    later runs period first (some (first + period - first_end)) started ended
