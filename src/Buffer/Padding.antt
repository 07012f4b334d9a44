-- ===== src/Buffer/Padding.antt =====
-- What `value` reads from a buffer that ends in zeros.
use python3_gnutls.Prelude.{
  ◌==◌, if◌then◌else◌, Bytes, length, drop, ℕ, zero, suc, ◌≡◌, refl, ap, ◌↔◌, [], ◌∷◌, ◌++◌, arith,
}
use python3_gnutls.Errors.{ok, bind}
use python3_gnutls.Text.Laws.{Lacks}
use python3_gnutls.Buffer.{Fill, create_string_buffer, c_value, fetch, Delivers}
use python3_gnutls.Buffer.Laws.{fetch_padded}

c_value-append_padding : (v : Bytes) (k : ℕ) → c_value (v ++ create_string_buffer k) ≡ c_value v
unfolding c_value
c_value-append_padding [] zero = refl
c_value-append_padding [] (suc k) = refl
c_value-append_padding (b ∷ v) k =
    ap (λ rest. if b == 0 then [] else b ∷ rest) (c_value-append_padding v k)

drop-replicate : (m n : ℕ) → (k : ℕ) × (drop m (create_string_buffer n) ≡ create_string_buffer k)
drop-replicate zero n = (n, refl)
drop-replicate (suc m) zero = (0, refl)
drop-replicate (suc m) (suc n) = drop-replicate m n

-- From a buffer of any first size, `value` gives what was written up to its first zero byte.
pub fetch-c_value :
    (n : ℕ) (fill : Fill) (written : Bytes) (size : ℕ)
    → Delivers written size fill
    → bind (fetch n fill) (λ f. ok (c_value f.buffer)) ≡ ok (c_value written)
fetch-c_value n fill written size d =
    let (f, m, e, _, full) = fetch_padded n fill written size d in
    let (k, zeros) = drop-replicate (length written) m in
    rw (e, full, zeros, c_value-append_padding written k)

-- `value` gives back exactly the texts without a zero byte.
pub c_value_iff : (v : Bytes) → (c_value v ≡ v) ↔ Lacks 0 v
unfolding c_value
c_value_iff [] = (λ _. tt, λ _. refl)
c_value_iff (b ∷ v) = let rest = c_value_iff v in ground arith
