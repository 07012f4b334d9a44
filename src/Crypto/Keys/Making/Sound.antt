-- ===== src/Crypto/Keys/Making/Sound.antt =====
-- The keys that are made for a caller stand on C objects that are not released.
use python3_gnutls.Prelude.{
  ◌==◌, if◌then◌else◌, Bool-cases, Option-cases, Str, All, ℤ, ℕ, ◌<◌, ◌≡◌, refl, sym, subst, ◌∙◌,
  ◌≢◌, inl, inr, Bool, true, false, Option, none, some, arith,
}
use python3_gnutls.Errors.{new, Result, ok, err}
use python3_gnutls.Exec.{◌>>=◌, Exec, lift}
use python3_gnutls.Status.{Reply, check_status}
use python3_gnutls.Crypto.Keys.{
  Key, Heap, allocate, Source, absent, other, key, borrowed, owned, wrap, create, init_key,
}
use python3_gnutls.Crypto.Keys.Ownership.{Rooted, owner, borrower, IsSound, init_key-IsSound}
use python3_gnutls.Crypto.Keys.Making.{update}

abbrev pub IsLive : ℕ → Heap → Type 0
IsLive k h = (x : Key) × (h.live k ≡ some x)

abbrev OnOk : {A : Type 0} → (A → Heap → Type 0) → Result A → Heap → Type 0
OnOk Q (ok a) h = Q a h
OnOk Q (err e) h = Unit

-- A run that leaves sound keys, and `Q` of what it returns.
pub record Good {A : Type 0} (Q : A → Heap → Type 0) (run : Result A × Heap) : Type 0 where
  pub sound : IsSound run.1
  pub returned : OnOk Q run.0 run.1

abbrev Same : Key → Key → Type 0
Same x y = (x.handle ≡ y.handle) × (x.owns ≡ y.owns) × (x.pk ≡ y.pk)

-- An assignment that leaves the C object, its owner and `pk` alone
abbrev Mild : (Key → Key) → Type 0
Mild f = (x : Key) → Same (f x) x

updated :
    (i : ℕ) (f : Key → Key) (h : Heap) (k : ℕ) (x : Key)
    → Mild f
    → (update i f h).live k ≡ some x
    → (y : Key) × (h.live k ≡ some y) × Same x y
updated i f h k x mild e = elim (Option-cases (h.live k)) [
  | inl gone ↦ absurd (ground arith)
  | inr (y, was) ↦ elim (Bool-cases (k == i)) [
    | inl same ↦ let fx : f y ≡ x = ground arith in (y, was, subst (λ z. Same z y) fx (mild y))
    | inr apart ↦
        let yx : y ≡ x = ground arith in (y, was, subst (λ z. Same z y) yx (refl, refl, refl))
  ]
]

still :
    (i : ℕ) (f : Key → Key) (h : Heap) (k : ℕ) (y : Key)
    → Mild f
    → h.live k ≡ some y
    → (x : Key) × ((update i f h).live k ≡ some x) × Same x y
still i f h k y mild e = elim (Bool-cases (k == i)) [
  | inl same ↦ (f y, ground arith, mild y)
  | inr apart ↦ (y, ground arith, (refl, refl, refl))
]

Rooted-update :
    (i : ℕ) (f : Key → Key) (h : Heap) (k : ℕ) (x y : Key)
    → Mild f
    → Same x y
    → Rooted h k y
    → Rooted (update i f h) k x
Rooted-update i f h k x y mild (handles, owners, pks) (owner o named) =
    owner (owners ∙ o) (handles ∙ named)
Rooted-update i f h k x y mild (handles, owners, pks) (borrower j z o refers older live shared) =
    let (z', kept, (same, _, _)) = still i f h j z mild live in
    borrower j z' (owners ∙ o) (pks ∙ refers) older kept (same ∙ shared ∙ sym handles)

pub IsSound-update :
    (i : ℕ) (f : Key → Key) (h : Heap) → Mild f → IsSound h → IsSound (update i f h)
IsSound-update i f h mild s = record {
  rooted = λ k x e.
      let (y, was, same) = updated i f h k x mild e in
      Rooted-update i f h k x y mild same (s.rooted k y was);
  numbered = λ k x e.
      let (y, was, (same, _, _)) = updated i f h k x mild e in
      subst (λ n. (k < h.next) × (n < h.next)) (sym same) (s.numbered k y was);
  old = s.old;
  usable = λ k x e.
      let (y, was, (same, _, _)) = updated i f h k x mild e in
      subst (λ n. All (λ g. n ≢ g) h.freed) (sym same) (s.usable k y was);
  once = s.once;
}

pub IsLive-update :
    (i : ℕ) (f : Key → Key) (h : Heap) (k : ℕ) → Mild f → IsLive k h → IsLive k (update i f h)
IsLive-update i f h k mild (y, e) = let (x, kept, _) = still i f h k y mild e in (x, kept)

module _ {A B : Type 0} {Q : A → Heap → Type 0} {R : B → Heap → Type 0} where
  after :
      (r : Result A) (h : Heap) (f : A → Exec Heap B)
      → Good Q (r, h)
      → ((a : A) (g : Heap) → IsSound g → Q a g → Good R (f a g))
      → Good R ((lift r >>= f) h)
  after (ok a) h f good next = next a h good.sound good.returned
  after (err e) h f good next = record { sound = good.sound; returned = tt }

  -- A step and what follows it
  pub Good-bind :
      (m : Exec Heap A) (f : A → Exec Heap B) (h : Heap)
      → Good Q (m h)
      → ((a : A) (g : Heap) → IsSound g → Q a g → Good R (f a g))
      → Good R ((m >>= f) h)
  Good-bind m f h good next = after (m h).0 (m h).1 f good next

-- A call of the library and what follows it
pub Good-lift :
    {A B : Type 0} {R : B → Heap → Type 0} (r : Result A) (f : A → Exec Heap B) (h : Heap)
    → IsSound h
    → ((a : A) → Good R (f a h))
    → Good R ((lift r >>= f) h)
Good-lift (ok a) f h s next = next a
Good-lift (err e) f h s next = record { sound = s; returned = tt }

pub Good-if :
    {A : Type 0} {R : A → Heap → Type 0} (b : Bool) (m n : Exec Heap A) (h : Heap)
    → Good R (m h)
    → Good R (n h)
    → Good R ((if b then m else n) h)
Good-if true m n h first second = first
Good-if false m n h first second = second

IsLive-allocate : (new : Key) (h : Heap) → IsLive h.next (allocate new h)
IsLive-allocate new h = (new, ground arith)

create-Good :
    (r : Result ℤ) (uri : Option Str) (keytype : ℕ) (h : Heap)
    → OnOk IsLive (create r uri keytype h).0 (create r uri keytype h).1
create-Good (ok _) uri keytype h = IsLive-allocate (owned h.next uri keytype) h
create-Good (err e) uri keytype h = tt

wrap-Good :
    (i keytype : ℕ) (o : Option Key) (h : Heap)
    → OnOk IsLive (wrap i keytype o h).0 (wrap i keytype o h).1
wrap-Good i keytype none h = tt
wrap-Good i keytype (some x) h = IsLive-allocate (borrowed i x keytype) h

init_key_lives :
    (reply : Reply) (source : Source) (uri : Option Str) (keytype : ℕ) (h : Heap)
    → OnOk IsLive (init_key reply source uri keytype h).0 (init_key reply source uri keytype h).1
unfolding init_key
init_key_lives reply absent uri keytype h = create-Good (check_status none reply) uri keytype h
init_key_lives reply other uri keytype h = tt
init_key_lives reply (key i) uri keytype h = wrap-Good i keytype (h.live i) h

-- A new key, of its own or around another one, is live.
pub init_key-Good :
    (reply : Reply) (source : Source) (uri : Option Str) (keytype : ℕ) (h : Heap)
    → IsSound h
    → Good IsLive (init_key reply source uri keytype h)
init_key-Good reply source uri keytype h s = record {
  sound = init_key-IsSound h reply source uri keytype s;
  returned = init_key_lives reply source uri keytype h;
}
