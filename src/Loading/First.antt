-- ===== src/Loading/First.antt =====
-- Which candidate is loaded.
use python3_gnutls.Prelude.{
  if◌then◌else◌, Bool-cases, Str, ℕ, ◌≡◌, refl, sym, ap, subst, ◌∙◌, ◌↔◌, inl, inr, true, List, [],
  ◌∷◌, ◌++◌, append-nil,
}
use python3_gnutls.Errors.{os_error, is_subclass, Exception, Result, ok, err}
use python3_gnutls.Loading.{
  flat_map, Environment, library_locations, candidates, load_first, load_library,
}

-- The file is missing or is no library.
pub record Refused (load : Str → Result ℕ) (library : Str) : Type 0 where
  pub error : Exception
  pub load_eq : load library ≡ err error
  pub is_os_error : is_subclass error.class os_error ≡ true

-- The first of the candidates that loads.
pub data FirstLoading (load : Str → Result ℕ) : List Str → ℕ → Type 0 where
  found :
      (library : Str) (rest : List Str) (handle : ℕ)
      → load library ≡ ok handle
      → FirstLoading load (library ∷ rest) handle
  passed :
      (library : Str) (rest : List Str) (handle : ℕ)
      → Refused load library
      → FirstLoading load rest handle
      → FirstLoading load (library ∷ rest) handle

err-ne-ok : (e : Exception) (n : ℕ) → ¬ (◌≡◌ {A = Result ℕ} (err e) (ok n))
err-ne-ok e n h = cc

load_first_sound :
    (load : Str → Result ℕ) (cs : List Str) (handle : ℕ)
    → load_first load cs ≡ ok handle
    → FirstLoading load cs handle
unfolding load_first
load_first_sound load [] handle h = cc
load_first_sound load (c ∷ cs) handle h = tried (load c) refl h (load_first_sound load cs handle)
  where
    tried :
        (r : Result ℕ)
        → load c ≡ r
        → elim r [
          | ok x ↦ ok x
          | err e ↦ if is_subclass e.class os_error then load_first load cs else err e
        ]
          ≡ ok handle
        → (load_first load cs ≡ ok handle → FirstLoading load cs handle)
        → FirstLoading load (c ∷ cs) handle
    tried (ok x) e h ih = found c cs handle (e ∙ h)
    tried (err x) e h ih = elim (Bool-cases (is_subclass x.class os_error)) [
      | inl os ↦
          passed c cs handle (record { error = x; load_eq = e; is_os_error = os })
            (ih (subst (λ b. (if b then load_first load cs else err x) ≡ ok handle) os h))
      | inr other ↦ absurd (
          err-ne-ok x handle
            (subst (λ b. (if b then load_first load cs else err x) ≡ ok handle) other h))
    ]

FirstLoading-load_first :
    (load : Str → Result ℕ) (cs : List Str) (handle : ℕ)
    → FirstLoading load cs handle
    → load_first load cs ≡ ok handle
unfolding load_first
FirstLoading-load_first load cs handle (found library rest h e) = rw (e, load_first)
FirstLoading-load_first load cs handle (passed library rest h r f) =
    rw (r.load_eq, r.is_os_error, load_first) (FirstLoading-load_first load rest handle f)

-- The library that is loaded is the first candidate that loads, where every one before it was refused
-- by the system: the candidates of version 30 come before those of version 28.
pub load_library_iff :
    (env : Environment) (load : Str → Result ℕ) (handle : ℕ)
    → (load_library env load ≡ ok handle)
      ↔ FirstLoading load (library_locations env 30 ++ library_locations env 28) handle
unfolding load_library candidates flat_map
load_library_iff env load handle =
    subst
      (λ cs.
        (load_first load cs ≡ ok handle)
        ↔ FirstLoading load (library_locations env 30 ++ library_locations env 28) handle)
      (ap (λ l. library_locations env 30 ++ l) (sym (append-nil (library_locations env 28))))
      (let cs = library_locations env 30 ++ library_locations env 28 in
        (load_first_sound load cs handle, FirstLoading-load_first load cs handle))
