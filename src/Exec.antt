-- ===== src/Exec.antt =====
-- Code that mutates an object or calls the library, and may raise. What was written before a raise
-- stays written, so the state comes back beside the exception.
use python3_gnutls.Prelude.{◌≡◌, ap, List, [], ◌∷◌}
use python3_gnutls.Errors.{Exception, Result, ok, err}

abbrev pub Exec {ℓ κ} : Type ℓ → Type κ → Type (ℓ ⊔ κ)
Exec S A = S → Result A × S

module _ {ℓ κ} {S : Type ℓ} {A : Type κ} where
  abbrev pub pure : A → Exec S A
  pure a s = (ok a, s)

  abbrev pub raise : Exception → Exec S A
  raise e s = (err e, s)

  abbrev pub lift : Result A → Exec S A
  lift r s = (r, s)

  abbrev pub gets : (S → A) → Exec S A
  gets f s = (ok (f s), s)

abbrev pub modify {ℓ} : {S : Type ℓ} → (S → S) → Exec S (Unit {0})
modify f s = (ok tt, f s)

infixl 5 ◌>>=◌ ◌>>◌
abbrev pub ◌>>=◌ {ℓ κ μ} :
    {S : Type ℓ} {A : Type κ} {B : Type μ} → Exec S A → (A → Exec S B) → Exec S B
◌>>=◌ m f s = let (r, s') = m s in elim r [ ok a ↦ f a s' | err e ↦ (err e, s') ]

abbrev pub ◌>>◌ {ℓ κ μ} : {S : Type ℓ} {A : Type κ} {B : Type μ} → Exec S A → Exec S B → Exec S B
m >> k = m >>= λ _. k

-- `for x in xs: body(x)`; an exception ends the loop.
abbrev pub for_each {ℓ κ} :
    {S : Type ℓ} {A : Type κ} → List A → (A → Exec S (Unit {0})) → Exec S (Unit {0})
for_each [] body s = (ok tt, s)
for_each (x ∷ xs) body s =
    let (r, s') = body x s in elim r [ ok _ ↦ for_each xs body s' | err e ↦ (err e, s') ]

abbrev run_next {ℓ κ μ} :
    {S : Type ℓ} {A : Type κ} {B : Type μ} → (A → Exec S B) → Result A × S → Result B × S
run_next f (r, s) = elim r [ ok a ↦ f a s | err e ↦ (err e, s) ]

-- The equation of a step that returned.
pub bind-eq {ℓ κ μ} :
    {S : Type ℓ} {A : Type κ} {B : Type μ} (m : Exec S A) (f : A → Exec S B) {s s' : S} {a : A}
    → m s ≡ (ok a, s')
    → (m >>= f) s ≡ f a s'
bind-eq m f e = ap (run_next f) e

pub for_each-cons {ℓ κ} :
    {S : Type ℓ} {A : Type κ} (x : A) (xs : List A) (body : A → Exec S (Unit {0})) {s s' : S}
    → body x s ≡ (ok tt, s')
    → for_each (x ∷ xs) body s ≡ for_each xs body s'
for_each-cons x xs body e = ap (run_next (λ (_ : Unit {0}). for_each xs body)) e

-- Of a run that returns, `Q` holds at the end.
abbrev pub Ends {ℓ κ μ} : {S : Type ℓ} {A : Type κ} → (S → Type μ) → Result A × S → Type μ
Ends Q (r, s) = elim r [ ok _ ↦ Q s | err _ ↦ Unit ]

-- From `P`, a run of `m` that returns ends in `Q`.
pub record Ensures {ℓ κ μ} {S : Type ℓ} {A : Type κ} (P : S → Type μ) (m : Exec S A)
    (Q : S → Type μ) : Type (ℓ ⊔ κ ⊔ μ) where
  pub at : (s : S) → P s → Ends Q (m s)

module _ {ℓ κ μ ν} {S : Type ℓ} {A : Type κ} {B : Type ν} {Q R : S → Type μ} where
  continue :
      (r : Result A) (s : S) (f : A → Exec S B)
      → Ends Q (r, s)
      → ((a : A) → Ensures Q (f a) R)
      → Ends R (run_next f (r, s))
  continue (ok a) s f h k = (k a).at s h
  continue (err e) s f h k = tt

  pub Ensures-bind :
      {P : S → Type μ} (m : Exec S A) (f : A → Exec S B)
      → Ensures P m Q
      → ((a : A) → Ensures Q (f a) R)
      → Ensures P (m >>= f) R
  Ensures-bind m f hm hf = record { at = λ s h. continue (m s).0 (m s).1 f (hm.at s h) hf }
