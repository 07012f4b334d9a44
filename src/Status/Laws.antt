-- ===== src/Status/Laws.antt =====
-- What `check_status` of gnutls/library/errors.py raises.
use python3_gnutls.Prelude.{
  ◌≡◌, refl, subst, sym, inl, inr, none, true, ◌⊎◌, ◌↔◌, Option, String, ℤ, ℕ, pos, negsuc, ◌≤ℤ◌,
  arith,
}
use python3_gnutls.Errors.{
  memory_error, gnutls_error, Exception, error_message, strerror, requested_data_not_available, new,
  ok, err, is_subclass,
}
use python3_gnutls.Constants.Code
use python3_gnutls.Status.{Reply, status_error, check_status}

-- A status is passed on exactly when it is not negative, and the value is the status itself.
pub check_status-eq-ok :
    (errmsg : Option String) (r : Reply) (v : ℤ)
    → (check_status errmsg r ≡ ok v) ↔ ((pos 0 ≤ℤ r.retcode) × (v ≡ r.retcode))
unfolding check_status
check_status-eq-ok errmsg r v = ground arith

-- Whatever a failed library call raises is a `GNUTLSError` or a `MemoryError`.
pub check_status_class :
    (errmsg : Option String) (r : Reply) (e : Exception)
    → check_status errmsg r ≡ err e
    → (is_subclass e.class gnutls_error ≡ true) ⊎ (e.class ≡ memory_error)
unfolding check_status is_subclass
check_status_class errmsg r e h = ground arith

pub check_status_ok :
    (errmsg : Option String) (r : Reply) → pos 0 ≤ℤ r.retcode → check_status errmsg r ≡ ok r.retcode
check_status_ok errmsg r h = (check_status-eq-ok errmsg r r.retcode).1 (h, refl)

-- Both memory codes become `MemoryError`, which the buffer code of crypto.py relies on.
pub check_status_short :
    (r : Reply)
    → r.retcode ≡ Code.short_memory_buffer
    → check_status none r ≡ err (new memory_error (error_message Code.short_memory_buffer))
unfolding check_status
check_status_short r h = ground arith

pub check_status_unavailable :
    (r : Reply)
    → r.retcode ≡ Code.requested_data_not_available
    → check_status none r
      ≡ err (new requested_data_not_available (strerror Code.requested_data_not_available))
unfolding check_status
check_status_unavailable r h = ground arith

-- No negative status passes.
pub check_status_nonneg :
    (errmsg : Option String) (r : Reply) (v : ℤ) → check_status errmsg r ≡ ok v → pos 0 ≤ℤ v
unfolding check_status
check_status_nonneg errmsg r v h = ground arith

pub check_status_negative :
    (errmsg : Option String) (r : Reply) (n : ℕ)
    → r.retcode ≡ negsuc n
    → (e : Exception) × (check_status errmsg r ≡ err e)
check_status_negative errmsg r n h = (status_error errmsg r, unfold check_status in ground arith)

-- The status check returns the status itself where it is not negative, and else raises a `GNUTLSError`
-- or a `MemoryError`, whatever message the function has.
pub check_status_lem :
    (errmsg : Option String) (r : Reply)
    → ((pos 0 ≤ℤ r.retcode) × (check_status errmsg r ≡ ok r.retcode))
      ⊎ ((r.retcode ≤ℤ negsuc 0)
          × (e : Exception) × (check_status errmsg r ≡ err e)
          × ((is_subclass e.class gnutls_error ≡ true) ⊎ (e.class ≡ memory_error)))
check_status_lem errmsg r = by_sign r.retcode refl
  where
    by_sign :
        (v : ℤ)
        → r.retcode ≡ v
        → ((pos 0 ≤ℤ r.retcode) × (check_status errmsg r ≡ ok r.retcode))
          ⊎ ((r.retcode ≤ℤ negsuc 0)
              × (e : Exception) × (check_status errmsg r ≡ err e)
              × ((is_subclass e.class gnutls_error ≡ true) ⊎ (e.class ≡ memory_error)))
    by_sign (pos n) h =
        let passes : pos 0 ≤ℤ r.retcode = subst (λ v. pos 0 ≤ℤ v) (sym h) (omega arith) in
        inl (passes, check_status_ok errmsg r passes)
    by_sign (negsuc n) h =
        let (e, raised) = check_status_negative errmsg r n h in
        inr (
          subst (λ v. v ≤ℤ negsuc 0) (sym h) (omega arith),
          e,
          raised,
          check_status_class errmsg r e raised,
        )
