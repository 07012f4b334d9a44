-- ===== src/Twisted/Recurrent.antt =====
-- gnutls/interfaces/twisted/__init__.py, `RecurrentCall`. Times are whole units since the epoch.
pub mod Schedule
use python3_gnutls.Prelude.{ℕ, ◌+◌, ◌-◌, Option, none, some}
use python3_gnutls.Errors.{Result, ok, err}
use python3_gnutls.Exec.{Exec}

-- What the function returned: the class `KeepRunning`, or anything else.
pub data Answer : Type 0 where
  keep_running finished : Answer

-- `times` is (`now`, `next`), which are set together; `callid` is the delay of the pending call of
-- the reactor.
pub record RecurrentCall : Type 0 where
  pub period : ℕ
  pub times : Option (ℕ × ℕ)
  pub callid : Option ℕ

-- `__init__`
abbrev pub new_call : ℕ → RecurrentCall
new_call period = record { period = period; times = none; callid = some period }

-- `self.now` and `self.next` for a call that starts at `started`
abbrev pub advance : ℕ → ℕ → Option (ℕ × ℕ) → ℕ × ℕ
advance period started none = (started, started + period)
advance period started (some (now, next)) = (next, next + period)

-- `__call__`, for what the function returns, with the values of `time()` before and after it.
unfoldable pub call : ℕ → Result Answer → ℕ → Exec RecurrentCall (Unit {0})
call started answer ended c =
    let times = advance c.period started c.times in
    let running = record c { times = some times; callid = none } in
    elim answer [
      | ok keep_running ↦ (ok tt, record running { callid = some (times.1 - ended) })
      | ok finished ↦ (ok tt, running)
      | err e ↦ (err e, running)
    ]

-- `cancel`; the reactor's `ValueError` is dropped.
unfoldable pub cancel : RecurrentCall → RecurrentCall
cancel c = record c { callid = none }
