-- ===== src/Twisted/Mixin.antt =====
-- gnutls/interfaces/twisted/__init__.py, `TLSMixin`: reading, writing and closing over a session that
-- may block. `S` is the state behind the session.
pub mod Settling
use mathlib.Core.Option
use python3_gnutls.Prelude.{if◌then◌else◌, ℕ, zero, suc, Bool, true, ◌||◌, Option, none, some, map}
use python3_gnutls.Errors.{
  gnutls_error, operation_would_block, operation_interrupted, is_subclass, Exception, Result, ok,
  err,
}
use python3_gnutls.Exec.{Exec}

unfoldable pub is_interrupted : Exception → Bool
unfolding is_subclass
is_interrupted e = is_subclass e.class operation_interrupted

unfoldable pub is_blocked : Exception → Bool
unfolding is_subclass
is_blocked e =
    is_subclass e.class operation_would_block || is_subclass e.class operation_interrupted

-- What a callback of the reactor returns: a value of Twisted's own method, nothing, or an exception
-- that closes the connection.
pub data Returned (A : Type 0) : Type 0 where
  value : A → Returned A
  nothing : Returned A
  failed : Exception → Returned A

module _ {S : Type 0} where
  -- `doRead`; `read` is `tcp.Connection.doRead`.
  unfoldable pub do_read : {A : Type 0} → Exec S A → Exec S (Returned A)
  unfolding is_blocked is_subclass
  do_read read s =
      let (r, s') = read s in
      elim r [
        | ok a ↦ (ok (value a), s')
        | err e ↦
            if is_blocked e
            then (ok nothing, s')
            else if is_subclass e.class gnutls_error
            then (ok (failed e), s')
            else (err e, s')
      ]

  -- What `writeSomeData` makes of Twisted's method; `again` is its call of itself.
  abbrev pub on_written :
      Result ℕ → S → Option (Result (Returned ℕ) × S) → Option (Result (Returned ℕ) × S)
  on_written (ok n) s again = some (ok (value n), s)
  on_written (err e) s again =
      if is_interrupted e
      then again
      else if is_subclass e.class operation_would_block
      then some (ok (value 0), s)
      else if is_subclass e.class gnutls_error
      then some (ok (failed e), s)
      else some (err e, s)

  -- `writeSomeData`; `write` is Twisted's method on the data. `none` says that the fuel ran out.
  unfoldable pub write_some_data : ℕ → Exec S ℕ → S → Option (Result (Returned ℕ) × S)
  write_some_data zero write s = none
  write_some_data (suc fuel) write s =
      let (r, s') = write s in on_written r s' (write_some_data fuel write s')

  abbrev pub on_sent :
      Result (Unit {0}) → S → Option (Result (Unit {0}) × S) → Option (Result (Unit {0}) × S)
  on_sent (ok _) s again = some (ok tt, s)
  on_sent (err e) s again = if is_interrupted e then again else some (err e, s)

  -- `_sendCloseReason` and `_sendCloseAlert`, which call themselves where they were interrupted.
  unfoldable pub insist : ℕ → Exec S (Unit {0}) → S → Option (Result (Unit {0}) × S)
  insist zero m s = none
  insist (suc fuel) m s = let (r, s') = m s in on_sent r s' (insist fuel m s')

  -- The second line of `closeTLSSession`, where the first one returned; every exception is dropped.
  unfoldable pub then_bye : ℕ → Exec S (Unit {0}) → Option (Result (Unit {0}) × S) → Option S
  then_bye fuel send_bye none = none
  then_bye fuel send_bye (some (err e, s)) = some s
  then_bye fuel send_bye (some (ok _, s)) = Option.map (λ o. o.1) (insist fuel send_bye s)

  -- `closeTLSSession`: the alert for the reason, then the goodbye.
  unfoldable pub close_session : ℕ → Exec S (Unit {0}) → Exec S (Unit {0}) → S → Option S
  unfolding then_bye
  close_session fuel send_reason send_bye s = then_bye fuel send_bye (insist fuel send_reason s)

-- What `endTLSWrite` decides: it waits until it can write again, returns the exception, or is done
-- and takes `doWrite` back.
pub data EndWrite : Type 0 where
  waiting done : EndWrite
  broken : Exception → EndWrite

-- `endTLSWrite`, on what the goodbye raised and whether the session was writing then.
unfoldable pub end_write : Result (Unit {0}) → Bool → EndWrite
unfolding is_subclass
end_write (ok _) writing = done
end_write (err e) writing =
    if is_subclass e.class operation_would_block
    then (if writing then waiting else done)
    else broken e

-- `_closeWriteConnection`: whether the connection below is half-closed as well, or the exception.
unfoldable pub close_write : EndWrite → Result Bool
close_write (broken e) = err e
close_write _ = ok true
