-- ===== src/Crypto/Pkcs7/Verification.antt =====
-- What it takes for signed bytes to be accepted.
use python3_gnutls.Prelude.{
  Bytes, pos, negsuc, pos_part, ◌≤ℤ◌, ℕ, zero, suc, ◌+◌, ◌%◌, ◌^◌, ◌≤◌, ◌<◌, ◌≡◌, refl, sym, ap,
  subst, ◌∙◌, ◌↔◌, ◌⊎◌, inl, inr, none, arith,
}
use python3_gnutls.Errors.{Result, ok, bind, bind-eq-ok}
use python3_gnutls.Status.{Reply, check_status}
use python3_gnutls.Status.Laws.{check_status-eq-ok, check_status_ok}
use python3_gnutls.Crypto.Pkcs7.{
  Pkcs7Library, count_up, check_each, get_signature_count, indices, verify_direct, verify,
}

-- The library accepts each signature whose index lies from `start` to `start + n - 1`.
abbrev pub AllPass : (ℕ → Reply) → ℕ → ℕ → Type 0
AllPass call start n = (i : ℕ) → start ≤ i → i < start + n → pos 0 ≤ℤ (call i).retcode

nat-cases : (m n : ℕ) → m ≤ n → (m ≡ n) ⊎ (suc m ≤ n)
nat-cases m n h = ground arith

check_each_pass :
    (call : ℕ → Reply) (start n : ℕ)
    → start + n ≤ 2 ^ 32
    → check_each call (count_up start n) ≡ ok tt
    → AllPass call start n
unfolding check_each
check_each_pass call start zero h run i a b = absurd (omega arith)
check_each_pass call start (suc n) h run i a b =
    let (v, checked, rest) = bind-eq-ok (check_status none (call (start % 2 ^ 32))) _ run in
    let here = ((check_status-eq-ok none (call (start % 2 ^ 32)) v).0 checked).0 in
    let small : start % 2 ^ 32 ≡ start = omega arith in
    elim (nat-cases start i a) [
      | inl same ↦ subst (λ k. pos 0 ≤ℤ (call k).retcode) (small ∙ same) here
      | inr later ↦ check_each_pass call (suc start) n (omega arith) rest i later (omega arith)
    ]

check_each_ok :
    (call : ℕ → Reply) (start n : ℕ)
    → start + n ≤ 2 ^ 32
    → AllPass call start n
    → check_each call (count_up start n) ≡ ok tt
unfolding check_each
check_each_ok call start zero h pass = refl
check_each_ok call start (suc n) h pass =
    let small : start % 2 ^ 32 ≡ start = omega arith in
    let here = check_status_ok none (call (start % 2 ^ 32)) (
      subst (λ k. pos 0 ≤ℤ (call k).retcode) (sym small)
        (pass start (omega arith) (omega arith))) in
    ap (λ m. bind m (λ _. check_each call (count_up (suc start) n))) here
    ∙ check_each_ok call (suc start) n (omega arith) (λ i a b. pass i (omega arith) (omega arith))

check_iff :
    (call : ℕ → Reply) (n : ℕ) {r : Result (Unit {0})}
    → 0 + n ≤ 2 ^ 32
    → r ≡ check_each call (count_up 0 n)
    → (r ≡ ok tt) ↔ AllPass call 0 n
check_iff call n h e =
    (λ passed. check_each_pass call 0 n h (sym e ∙ passed), λ all. e ∙ check_each_ok call 0 n h all)

module _ (lib : Pkcs7Library) where
  -- The object has `n` signatures, as many as fit a `c_uint`.
  abbrev pub HasSignatures : ℕ → ℕ → Type 0
  HasSignatures object n = ((lib.signature_count object).retcode ≡ pos n) × (n ≤ 2 ^ 31)

  all_indices :
      (object n : ℕ) → HasSignatures object n → indices lib object (negsuc 0) ≡ ok (count_up 0 n)
  unfolding indices get_signature_count
  all_indices object n h =
      let counted : check_status none (lib.signature_count object) ≡ ok (pos n) =
        (check_status-eq-ok none (lib.signature_count object) (pos n)).1
          (subst (λ v. (pos 0 ≤ℤ v) × (pos n ≡ v)) (sym h.0) (omega arith, refl)) in
      ap (λ m. bind m (λ v. ok (count_up 0 (pos_part v)))) counted

  -- With no index given, and where the library counts the signatures of the object, 2^31 at most,
  -- either verification succeeds exactly where the library accepts every one of them.
  pub verify_iff :
      (object other : ℕ) (buf : Bytes) (flags n : ℕ)
      → HasSignatures object n
      → ((verify lib object other buf (negsuc 0) flags ≡ ok tt)
          ↔ AllPass (λ i. lib.verify_with object other i buf flags) 0 n)
        × ((verify_direct lib object other buf (negsuc 0) flags ≡ ok tt)
            ↔ AllPass (λ i. lib.verify_direct_with object other i buf flags) 0 n)
  unfolding verify verify_direct
  verify_iff object other buf flags n h =
      let with_call : (call : ℕ → Reply)
          → (bind (indices lib object (negsuc 0)) (check_each call) ≡ ok tt) ↔ AllPass call 0 n =
        λ call.
          check_iff call n (omega arith)
            (ap (λ m. bind m (check_each call)) (all_indices object n h)) in
      (
        with_call (λ i. lib.verify_with object other i buf flags),
        with_call (λ i. lib.verify_direct_with object other i buf flags),
      )

  -- Of an object with no signature at all, every content is accepted, by every trust list and every
  -- certificate.
  pub verify-unsigned :
      (object other : ℕ) (buf : Bytes) (flags : ℕ)
      → HasSignatures object 0
      → (verify lib object other buf (negsuc 0) flags ≡ ok tt)
        × (verify_direct lib object other buf (negsuc 0) flags ≡ ok tt)
  verify-unsigned object other buf flags h =
      let (either, direct) = verify_iff object other buf flags 0 h in
      (either.1 (λ i a b. absurd (omega arith)), direct.1 (λ i a b. absurd (omega arith)))
