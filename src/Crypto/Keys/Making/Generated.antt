-- ===== src/Crypto/Keys/Making/Generated.antt =====
-- The key that `PrivateKey.generate` returns, where the library generates one.
use python3_gnutls.Prelude.{pos, ◌≤ℤ◌, ℕ, suc, ◌≡◌, ap, ◌∙◌, none, some, arith}
use python3_gnutls.Errors.{ok}
use python3_gnutls.Exec.{◌>>◌, lift, modify, bind-eq}
use python3_gnutls.Status.{Reply, returns}
use python3_gnutls.Crypto.Keys.{
  Key, Heap, allocate, absent, key, borrowed, owned, wrap, create, init_key, keytype_of,
}
use python3_gnutls.Crypto.Keys.Making.{
  checked, KeyLibrary, rsa_private_key, update, copy_password, init_rsa, wrap_as, upcast, generate,
}
use python3_gnutls.Status.Laws.{check_status_ok}

-- The key that makes the C object, with the key type of its algorithm
abbrev pub maker : ℕ → ℕ → Key
maker i keytype = record (owned i none 0) { keytype = keytype }

init_owned :
    (reply : Reply) (h : Heap)
    → pos 0 ≤ℤ reply.retcode
    → init_key reply absent none 0 h ≡ (ok h.next, allocate (owned h.next none 0) h)
unfolding init_key
init_owned reply h accepted = ap (λ r. create r none 0 h) (check_status_ok none reply accepted)

init_borrowed :
    (reply : Reply) (i : ℕ) (x : Key) (h : Heap)
    → h.live i ≡ some x
    → init_key reply (key i) none 0 h ≡ (ok h.next, allocate (borrowed i x 0) h)
unfolding init_key
init_borrowed reply i x h found = ap (λ o. wrap i 0 o h) found

-- The heap in the end
abbrev wrapped : Heap → Heap
wrapped h =
    let i = h.next in
    let g = update i (λ x. record x { keytype = 1 }) (allocate (owned i none 0) h) in
    copy_password i (suc i) (allocate (borrowed i (maker i 1) 0) g)

wrapped-maker : (h : Heap) → (wrapped h).live h.next ≡ some (maker h.next 1)
unfolding copy_password
wrapped-maker h = ground arith

wrapped_wrapper :
    (h : Heap) → (wrapped h).live (suc h.next) ≡ some (borrowed h.next (maker h.next 1) 0)
unfolding copy_password
wrapped_wrapper h = ground arith

module _ (lib : KeyLibrary) where
  -- Where the library generates it, an RSA key comes back as a wrapper around the key that has its
  -- C object. The wrapper borrows that object and keeps its owner alive, but its own key type is
  -- KEY_TYPE_NONE.
  pub generate-rsa :
      (algo bits flags : ℕ) (h : Heap)
      → keytype_of algo ≡ ok 1
      → pos 0 ≤ℤ lib.init_reply.retcode
      → pos 0 ≤ℤ (lib.generate_with h.next algo bits flags).retcode
      → let (r, g) = generate lib algo bits flags h in
        (r ≡ ok (rsa_private_key, suc h.next))
        × (g.live h.next ≡ some (maker h.next 1))
        × (g.live (suc h.next) ≡ some (borrowed h.next (maker h.next 1) 0))
  unfolding generate upcast wrap_as init_rsa copy_password
  generate-rsa algo bits flags h known inited generated =
      let i = h.next in
      let g : Heap = allocate (owned i none 0) h in
      let first : (update i (λ x. record x { keytype = 1 }) g).live i ≡ some (maker i 1) =
        ground arith in
      let run =
        bind-eq (init_key lib.init_reply absent none 0)
          (λ j. checked lib (lib.generate_with j algo bits flags) >> upcast algo j)
          (init_owned lib.init_reply h inited)
        ∙ bind-eq (checked lib (lib.generate_with i algo bits flags)) (λ _. upcast algo i)
            (ap (λ r. (r, g))
              (check_status_ok none (lib.generate_with i algo bits flags) generated))
        ∙ bind-eq (lift (keytype_of algo))
            (λ keytype.
              modify (update i (λ x. record x { keytype = keytype })) >> wrap_as keytype i)
            (ap (λ r. (r, g)) known)
        ∙ bind-eq (init_key (returns (pos 0)) (key i) none 0)
            (λ j. λ f. (ok (rsa_private_key, j), copy_password i j f))
            {s = update i (λ x. record x { keytype = 1 }) g}
            (init_borrowed (returns (pos 0)) i (maker i 1)
              (update i (λ x. record x { keytype = 1 }) g) first) in
      (
        ap (λ p. p.0) run,
        ap (λ p. p.1.live i) run ∙ wrapped-maker h,
        ap (λ p. p.1.live (suc i)) run ∙ wrapped_wrapper h,
      )
