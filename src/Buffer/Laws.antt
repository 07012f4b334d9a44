-- ===== src/Buffer/Laws.antt =====
-- One retry is enough, and what `value` and `raw` read from the buffer.
use python3_gnutls.Prelude.{
  ℕ, ◌≡◌, refl, inl, inr, none, [], ◌∷◌, ◌++◌, append_assoc, Bytes, pos, ◌≤ℤ◌, length, drop, arith,
  ltb, ltb→lt, Bool-cases,
}
use python3_gnutls.Errors.{is_subclass, ok}
use python3_gnutls.Text.Laws.{Lacks}
use python3_gnutls.Constants.Code
use python3_gnutls.Status.Laws.{check_status_ok, check_status_short}
use python3_gnutls.Buffer.{Filled, Fill, create_string_buffer, c_value, fetch, Delivers}

-- Where the value has no zero byte, `value` gives it back from in front of a zero byte.
pub c_value-append_zero : (v rest : Bytes) → Lacks 0 v → c_value (v ++ 0 ∷ rest) ≡ v
unfolding c_value
c_value-append_zero [] rest h = refl
c_value-append_zero (b ∷ v) rest h = ground (arith, c_value-append_zero v rest h.1)

pub c_value-append_cut : (v w rest : Bytes) → Lacks 0 v → c_value ((v ++ 0 ∷ w) ++ rest) ≡ v
c_value-append_cut v w rest h =
    ground (arith, append_assoc v (0 ∷ w) rest, c_value-append_zero v (w ++ rest) h)

abbrev first : Fill → ℕ → Filled
first fill n = fill (create_string_buffer n) n

fetch-first :
    (n : ℕ) (fill : Fill) → pos 0 ≤ℤ (first fill n).reply.retcode → fetch n fill ≡ ok (first fill n)
unfolding fetch
fetch-first n fill h = ground (arith, check_status_ok none (first fill n).reply h)

fetch_again :
    (n : ℕ) (fill : Fill)
    → (first fill n).reply.retcode ≡ Code.short_memory_buffer
    → pos 0 ≤ℤ (first fill (first fill n).size).reply.retcode
    → fetch n fill ≡ ok (first fill (first fill n).size)
unfolding fetch is_subclass
fetch_again n fill h p = ground (
  arith,
  check_status_short (first fill n).reply h,
  check_status_ok none (first fill (first fill n).size).reply p,
)

-- From a buffer of any first size the value is read, after one retry at most, with zeros behind it.
pub fetch_padded :
    (n : ℕ) (fill : Fill) (written : Bytes) (size : ℕ)
    → Delivers written size fill
    → (f : Filled) × (m : ℕ) × (fetch n fill ≡ ok f)
      × (f.size ≡ size)
      × (f.buffer ≡ written ++ drop (length written) (create_string_buffer m))
fetch_padded n fill written size d = elim (Bool-cases (ltb n (length written))) [
  | inl small ↦
      let (code, needed) = d.short (create_string_buffer n) n (ltb→lt n (length written) small) in
      let f = first fill (first fill n).size in
      let (positive, s, full) =
        d.fits (create_string_buffer (first fill n).size) (first fill n).size (omega arith) in
      (f, (first fill n).size, fetch_again n fill code positive, s, full)
  | inr large ↦
      let (positive, s, full) = d.fits (create_string_buffer n) n (ground arith) in
      (first fill n, n, fetch-first n fill positive, s, full)
]

pub fetch_lem :
    (n : ℕ) (fill : Fill) (written : Bytes) (size : ℕ)
    → Delivers written size fill
    → (f : Filled) × (rest : Bytes) × (fetch n fill ≡ ok f)
      × (f.size ≡ size)
      × (f.buffer ≡ written ++ rest)
fetch_lem n fill written size d =
    let (f, m, e, s, full) = fetch_padded n fill written size d in
    (f, drop (length written) (create_string_buffer m), e, s, full)
