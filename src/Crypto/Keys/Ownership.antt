-- ===== src/Crypto/Keys/Ownership.antt =====
-- No key is left with a released C object, and none is released twice.
use mathlib.Core.Path.{subst, sym}
use python3_gnutls.Prelude.{
  ◌==◌, if◌then◌else◌, ==_iff, Bool-cases, Option-cases, Str, All, ℤ, ℕ, zero, suc, ◌<◌, ◌≡◌, refl,
  sym, ap, subst, ◌∙◌, ◌≢◌, ◌⊎◌, inl, inr, true, false, Option, none, some, List, [], ◌∷◌, arith,
}
use python3_gnutls.Errors.{new, Result, ok, err}
use python3_gnutls.Status.{Reply, check_status}
use python3_gnutls.Crypto.Keys.{
  Key, Heap, owned, borrowed, start, allocate, Source, absent, other, key, create, init_key,
  delete_key, made, deleted, Reaches, here, there,
}

abbrev pub Distinct : List ℕ → Type 0
Distinct [] = Unit
Distinct (f ∷ fs) = All (λ g. f ≢ g) fs × Distinct fs

-- A live key owns the C object named after it, or borrows that of an older live key.
pub data Rooted (h : Heap) (k : ℕ) (x : Key) : Type 0 where
  owner : x.owns ≡ true → x.handle ≡ k → Rooted h k x
  borrower :
      (j : ℕ) (y : Key)
      → x.owns ≡ false
      → x.pk ≡ some j
      → j < k
      → h.live j ≡ some y
      → y.handle ≡ x.handle
      → Rooted h k x

pub record IsSound (h : Heap) : Type 0 where
  pub rooted : (k : ℕ) (x : Key) → h.live k ≡ some x → Rooted h k x
  pub numbered : (k : ℕ) (x : Key) → h.live k ≡ some x → (k < h.next) × (x.handle < h.next)
  pub old : All (λ f. f < h.next) h.freed
  pub usable : (k : ℕ) (x : Key) → h.live k ≡ some x → All (λ f. x.handle ≢ f) h.freed
  pub once : Distinct h.freed

pub start-IsSound : IsSound start
start-IsSound = record {
  rooted = λ k x h. cc;
  numbered = λ k x h. cc;
  old = tt;
  usable = λ k x h. cc;
  once = tt;
}

-- Where nobody refers to the key `i` and it owns its object, no other live key has that object.
alone :
    (h : Heap) (i : ℕ)
    → IsSound h
    → ((k : ℕ) (y : Key) → h.live k ≡ some y → y.pk ≢ some i)
    → (n k : ℕ) (x : Key) → k < n
    → h.live k ≡ some x
    → k ≢ i
    → x.handle ≢ i
alone h i s free zero k x below e apart same = absurd (omega arith)
alone h i s free (suc n) k x below e apart same = elim (s.rooted k x e) [
  | owner o named ↦ apart (omega arith)
  | borrower j y o refers older live shared ↦
      alone h i s free n j y (omega arith) live (λ j_is_i. free k x e (refers ∙ ap some j_is_i))
        (omega arith)
]

allocated :
    (h : Heap) (new : Key) (k : ℕ) (x : Key)
    → (allocate new h).live k ≡ some x
    → ((k ≡ h.next) × (x ≡ new)) ⊎ (h.live k ≡ some x)
allocated h new k x e = ground arith

kept :
    (h : Heap) (new : Key) (k : ℕ) (x : Key)
    → IsSound h
    → h.live k ≡ some x
    → (allocate new h).live k ≡ some x
kept h new k x s e =
    let (older, _) = s.numbered k x e in
    elim (Bool-cases (k == h.next)) [
      | inl same ↦ absurd (omega (arith, (==_iff k h.next).0 same))
      | inr apart ↦ rw apart e
    ]

Rooted-allocate :
    (h : Heap) (new : Key) (k : ℕ) (x : Key)
    → IsSound h
    → Rooted h k x
    → Rooted (allocate new h) k x
Rooted-allocate h new k x s (owner o named) = owner o named
Rooted-allocate h new k x s (borrower j y o refers older live shared) =
    borrower j y o refers older (kept h new j y s live) shared

All-weaken : (n : ℕ) (fs : List ℕ) → All (λ f. f < n) fs → All (λ f. f < suc n) fs
All-weaken n [] h = tt
All-weaken n (f ∷ fs) h = (omega arith, All-weaken n fs h.1)

IsSound-allocate :
    (h : Heap) (new : Key)
    → IsSound h
    → Rooted (allocate new h) h.next new
    → new.handle < suc h.next
    → All (λ f. new.handle ≢ f) h.freed
    → IsSound (allocate new h)
IsSound-allocate h new s root below unused = record {
  rooted = λ k x e. elim (allocated h new k x e) [
    | inl (k_new, x_new) ↦
        subst (λ j. Rooted (allocate new h) j x) (sym k_new)
          (subst (Rooted (allocate new h) h.next) (sym x_new) root)
    | inr old ↦ Rooted-allocate h new k x s (s.rooted k x old)
  ];
  numbered = λ k x e. elim (allocated h new k x e) [
    | inl (k_new, x_new) ↦ (omega arith, subst (λ y. y.handle < suc h.next) (sym x_new) below)
    | inr old ↦ let (a, b) = s.numbered k x old in (omega arith, omega arith)
  ];
  old = All-weaken h.next h.freed s.old;
  usable = λ k x e. elim (allocated h new k x e) [
    | inl (k_new, x_new) ↦ subst (λ y. All (λ f. y.handle ≢ f) h.freed) (sym x_new) unused
    | inr old ↦ s.usable k x old
  ];
  once = s.once;
}

unreleased : (n : ℕ) (fs : List ℕ) → All (λ f. f < n) fs → All (λ f. n ≢ f) fs
unreleased n [] h = tt
unreleased n (f ∷ fs) h = (omega arith, unreleased n fs h.1)

create-IsSound :
    (h : Heap) (r : Result ℤ) (uri : Option Str) (keytype : ℕ)
    → IsSound h
    → IsSound (create r uri keytype h).1
create-IsSound h (err e) uri keytype s = s
create-IsSound h (ok _) uri keytype s =
    IsSound-allocate h (owned h.next uri keytype) s (owner refl refl) (omega arith)
      (unreleased h.next h.freed s.old)

pub init_key-IsSound :
    (h : Heap) (reply : Reply) (source : Source) (uri : Option Str) (keytype : ℕ)
    → IsSound h
    → IsSound (init_key reply source uri keytype h).1
unfolding init_key
init_key-IsSound h reply absent uri keytype s =
    create-IsSound h (check_status none reply) uri keytype s
init_key-IsSound h reply other uri keytype s = s
init_key-IsSound h reply (key i) uri keytype s = elim (Option-cases (h.live i)) [
  | inl gone ↦ rw gone s
  | inr (x, e) ↦
      let (older, below) = s.numbered i x e in
      rw e (
        IsSound-allocate h (borrowed i x keytype) s
          (borrower i x refl refl older (kept h (borrowed i x keytype) i x s e) refl) (omega arith)
          (s.usable i x e))
]

abbrev removed : ℕ → List ℕ → Heap → Heap
removed i fs h = record h { live = λ k. if k == i then none else h.live k; freed = fs }

left :
    (h : Heap) (i k : ℕ) (fs : List ℕ) (y : Key)
    → k ≢ i
    → h.live k ≡ some y
    → (removed i fs h).live k ≡ some y
left h i k fs y apart e = ground arith

took :
    (h : Heap) (i k : ℕ) (fs : List ℕ) (y : Key)
    → (removed i fs h).live k ≡ some y
    → (k ≢ i) × (h.live k ≡ some y)
took h i k fs y e = ground arith

removed-IsSound :
    (h : Heap) (i : ℕ) (fs : List ℕ)
    → IsSound h
    → ((k : ℕ) (y : Key) → h.live k ≡ some y → y.pk ≢ some i)
    → All (λ f. f < h.next) fs
    → ((k : ℕ) (y : Key) → h.live k ≡ some y → k ≢ i → All (λ f. y.handle ≢ f) fs)
    → Distinct fs
    → IsSound (removed i fs h)
removed-IsSound h i fs s free old usable once = record {
  rooted = λ k y e.
      let (_, was) = took h i k fs y e in
      elim (s.rooted k y was) [
        | owner o named ↦ owner o named
        | borrower j z o refers older live shared ↦
            borrower j z o refers older
              (left h i j fs z (λ j_is_i. free k y was (refers ∙ ap some j_is_i)) live) shared
      ];
  numbered = λ k y e. s.numbered k y (took h i k fs y e).1;
  old = old;
  usable = λ k y e. let (apart, was) = took h i k fs y e in usable k y was apart;
  once = once;
}

own_handle : (h : Heap) (i : ℕ) (x : Key) → Rooted h i x → x.owns ≡ true → x.handle ≡ i
own_handle h i x (owner o named) owns = named
own_handle h i x (borrower j y o refers older live shared) owns = cc

pub delete_key-IsSound :
    (h : Heap) (i : ℕ) (x : Key)
    → IsSound h
    → h.live i ≡ some x
    → ((k : ℕ) (y : Key) → h.live k ≡ some y → y.pk ≢ some i)
    → IsSound (delete_key i x h)
unfolding delete_key
delete_key-IsSound h i x s e free = elim (Bool-cases x.owns) [
  | inr borrows ↦
      rw borrows
        (removed-IsSound h i h.freed s free s.old (λ k y was apart. s.usable k y was) s.once)
  | inl owns ↦
      let named = own_handle h i x (s.rooted i x e) owns in
      rw owns (
        removed-IsSound h i (x.handle ∷ h.freed) s free ((s.numbered i x e).1, s.old)
          (λ k y was apart. (
            λ same. alone h i s free (suc k) k y (omega arith) was apart (same ∙ named),
            s.usable k y was,
          ))
          (s.usable i x e, s.once))
]

pub Reaches-IsSound : {h : Heap} → Reaches start h → IsSound h
Reaches-IsSound here = start-IsSound
Reaches-IsSound (there {g} r (made reply source uri keytype)) =
    init_key-IsSound g reply source uri keytype (Reaches-IsSound r)
Reaches-IsSound (there {g} r (deleted i x e free)) =
    delete_key-IsSound g i x (Reaches-IsSound r) e free

-- However keys are made, wrapped by other keys and deleted, as long as Python deletes no key that
-- another one refers to, no key that is left has a released C object, and no object is released twice.
pub Reaches-sound :
    (h : Heap)
    → Reaches start h
    → ((k : ℕ) (x : Key) → h.live k ≡ some x → All (λ f. x.handle ≢ f) h.freed) × Distinct h.freed
Reaches-sound h r = let s = Reaches-IsSound r in (s.usable, s.once)
