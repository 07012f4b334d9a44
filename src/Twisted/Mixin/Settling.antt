-- ===== src/Twisted/Mixin/Settling.antt =====
-- Writing and closing end where the session is interrupted finitely often.
use python3_gnutls.Prelude.{
  Bool-cases, ℕ, zero, suc, ◌<◌, ◌≡◌, refl, inl, inr, true, false, Option, some, arith,
}
use python3_gnutls.Errors.{
  gnutls_error, operation_would_block, is_subclass, Exception, Result, ok, err,
}
use python3_gnutls.Exec.{Exec}
use python3_gnutls.Twisted.Mixin.{
  is_interrupted, Returned, value, failed, on_written, write_some_data, on_sent, insist, then_bye,
  close_session,
}

-- What the reactor gets for the attempt of which `write` returned or raised this.
pub data Reported : Result ℕ → Result (Returned ℕ) → Type 0 where
  written : (n : ℕ) → Reported (ok n) (ok (value n))
  blocked :
      (e : Exception)
      → is_interrupted e ≡ false
      → is_subclass e.class operation_would_block ≡ true
      → Reported (err e) (ok (value 0))
  closing :
      (e : Exception)
      → is_interrupted e ≡ false
      → is_subclass e.class operation_would_block ≡ false
      → is_subclass e.class gnutls_error ≡ true
      → Reported (err e) (ok (failed e))
  passed_on :
      (e : Exception)
      → is_interrupted e ≡ false
      → is_subclass e.class gnutls_error ≡ false
      → Reported (err e) (err e)

module _ {S : Type 0} where
  -- Each interruption lowers the rank, which is always below `fuel`.
  pub record Settles {A : Type 0} (fuel : ℕ) (m : Exec S A) : Type 0 where
    pub rank : S → ℕ
    pub bounded : (s : S) → rank s < fuel
    pub lowers :
        (s : S) (e : Exception) → (m s).0 ≡ err e → is_interrupted e ≡ true → rank (m s).1 < rank s

  -- The attempts from `s` on are interrupted, up to the one in `last`.
  pub data Retried {A : Type 0} (m : Exec S A) : S → S → Type 0 where
    here : (s : S) → Retried m s s
    interrupted :
        (s last : S) (e : Exception)
        → (m s).0 ≡ err e
        → is_interrupted e ≡ true
        → Retried m (m s).1 last
        → Retried m s last

  -- A run of `writeSomeData` by its last attempt
  abbrev pub Writes : Exec S ℕ → S → Option (Result (Returned ℕ) × S) → Type 0
  Writes write s o =
      (r : Result (Returned ℕ)) × (last : S) × Retried write s last
      × Reported (write last).0 r
      × (o ≡ some (r, (write last).1))

  on_written_lem :
      (write : Exec S ℕ) (s : S) (x : Result ℕ) (later : Option (Result (Returned ℕ) × S))
      → (write s).0 ≡ x
      → ((e : Exception) → x ≡ err e → is_interrupted e ≡ true → Writes write (write s).1 later)
      → Writes write s (on_written x (write s).1 later)
  on_written_lem write s (ok n) later e ih = (ok (value n), s, here s, rw e (written n), refl)
  on_written_lem write s (err x) later e ih = elim (Bool-cases (is_interrupted x)) [
    | inl h ↦
        let (r, last, retried, reported, ran) = ih x refl h in
        (r, last, interrupted s last x e h retried, reported, rw h ran)
    | inr h ↦ elim (Bool-cases (is_subclass x.class gnutls_error)) [
      | inl g ↦ elim (Bool-cases (is_subclass x.class operation_would_block)) [
        | inl b ↦ (ok (value 0), s, here s, rw e (blocked x h b), rw (h, b))
        | inr b ↦ (ok (failed x), s, here s, rw e (closing x h b g), rw (h, b, g))
      ]
      | inr g ↦ elim (Bool-cases (is_subclass x.class operation_would_block)) [
        | inl b ↦ (ok (value 0), s, here s, rw e (blocked x h b), rw (h, b))
        | inr b ↦ (err x, s, here s, rw e (passed_on x h g), rw (h, b, g))
      ]
    ]
  ]

  on_sent_lem :
      (r : Result (Unit {0})) (s' : S) (again : Option (Result (Unit {0}) × S))
      → ((e : Exception)
          → r ≡ err e
          → is_interrupted e ≡ true
          → (a : Result (Unit {0})) × (t : S) × (again ≡ some (a, t)))
      → (a : Result (Unit {0})) × (t : S) × (on_sent r s' again ≡ some (a, t))
  on_sent_lem (ok n) s' again ih = (ok tt, s', refl)
  on_sent_lem (err e) s' again ih = elim (Bool-cases (is_interrupted e)) [
    | inl h ↦ rw h (ih e refl h)
    | inr h ↦ rw h (err e, s', refl)
  ]

  write_below :
      {fuel : ℕ} (write : Exec S ℕ) (w : Settles fuel write) (n : ℕ) (s : S)
      → w.rank s < n
      → Writes write s (write_some_data n write s)
  unfolding write_some_data
  write_below write w zero s h = absurd (omega arith)
  write_below write w (suc n) s h =
      on_written_lem write s (write s).0 (write_some_data n write (write s).1) refl
        λ e raised i. write_below write w n (write s).1 (omega (arith, w.lowers s e raised i))

  insist_below :
      {fuel : ℕ} (m : Exec S (Unit {0})) (w : Settles fuel m) (n : ℕ) (s : S)
      → w.rank s < n
      → (r : Result (Unit {0})) × (s' : S) × (insist n m s ≡ some (r, s'))
  unfolding insist
  insist_below m w zero s h = absurd (omega arith)
  insist_below m w (suc n) s h =
      on_sent_lem (m s).0 (m s).1 (insist n m (m s).1)
        λ e raised i. insist_below m w n (m s).1 (omega (arith, w.lowers s e raised i))

  -- Where interruptions settle, writing ends with the first attempt that is not interrupted, on which
  -- the reactor gets: the number of bytes written, zero where the operation would block, and for any
  -- other `GNUTLSError` that exception to close the connection with; an exception of another class is
  -- raised as it is.
  pub write_some_data_lem :
      (fuel : ℕ) (write : Exec S ℕ) (s : S)
      → Settles fuel write
      → (r : Result (Returned ℕ)) × (last : S) × Retried write s last
        × Reported (write last).0 r
        × (write_some_data fuel write s ≡ some (r, (write last).1))
  write_some_data_lem fuel write s w = write_below write w fuel s (w.bounded s)

  -- Where interruptions settle, closing the session ends, whatever the two messages raise.
  pub close_session_lem :
      (fuel : ℕ) (send_reason send_bye : Exec S (Unit {0})) (s : S)
      → Settles fuel send_reason
      → Settles fuel send_bye
      → (s' : S) × (close_session fuel send_reason send_bye s ≡ some s')
  unfolding close_session then_bye
  close_session_lem fuel send_reason send_bye s hr hb =
      let (r, s', sent) = insist_below send_reason hr fuel s (hr.bounded s) in rw sent (after r s')
    where
      after :
          (r : Result (Unit {0})) (s' : S)
          → (t : S) × (then_bye fuel send_bye (some (r, s')) ≡ some t)
      after (ok _) s' =
          let (r, t, said) = insist_below send_bye hb fuel s' (hb.bounded s') in (t, rw said)
      after (err e) s' = (s', refl)
