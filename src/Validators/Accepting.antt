-- ===== src/Validators/Accepting.antt =====
-- What the validators of gnutls/validators.py accept, read off the types alone.
use mathlib.Core.Option
use python3_gnutls.Prelude.{
  ◌==◌, Bool-cases, Option-cases, ◌≡◌, refl, ap, ◌∙◌, ◌↔◌, ◌⊎◌, inl, inr, Bool, true, false, not,
  Option, none, some, List, ◌∷◌, arith,
}
use python3_gnutls.Validators.{
  Value, is_instance, is_instance_any, Spec, ignore, class, tuple, choice, each, other, Specs, end,
  spec, Validator, ignoring, type_of, multi_type, one_of_validator, list_of_validator, complex,
  Validators, stop, validator, all_classes, class_list, all_made, try_kind, first_kind, get,
  get_each, is_among, check_items, check, count,
}

-- The types that the decorators take. A tuple may hold any of them, tuples too.
unfoldable mutual
  pub Supported : Spec → Type 0
  Supported other = ⊥
  Supported (tuple ts) = AllSupported ts
  Supported _ = Unit

  pub AllSupported : Specs → Type 0
  AllSupported end = Unit
  AllSupported (spec t ts) = Supported t × AllSupported ts

get_classes :
    (ts : Specs) → all_classes ts ≡ true → get (tuple ts) ≡ some (multi_type (class_list ts))
unfolding get first_kind try_kind
get_classes ts classes = ground arith

get_union :
    (ts : Specs) (ws : Validators)
    → all_classes ts ≡ false
    → all_made (get_each ts) ≡ some ws
    → get (tuple ts) ≡ some (complex ws)
unfolding get first_kind try_kind
get_union ts ws mixed made = ground arith

get_mixed :
    (ts : Specs) (w : Validator)
    → all_classes ts ≡ false
    → get (tuple ts) ≡ some w
    → (ws : Validators) × (all_made (get_each ts) ≡ some ws)
unfolding get first_kind try_kind
get_mixed ts w mixed h = elim (Option-cases (all_made (get_each ts))) [
  | inl failed ↦ absurd (ground arith)
  | inr made ↦ made
]

all_made-cons :
    (o : Option Validator) (os : List (Option Validator)) (ws : Validators)
    → all_made (o ∷ os) ≡ some ws
    → ((w : Validator) × (o ≡ some w)) × ((rest : Validators) × (all_made os ≡ some rest))
unfolding all_made
all_made-cons none os ws h = absurd (cc)
all_made-cons (some w) os ws h = elim (Option-cases (all_made os)) [
  | inl failed ↦ absurd (ground arith)
  | inr made ↦ ((w, refl), made)
]

all_classes-AllSupported : (ts : Specs) → all_classes ts ≡ true → AllSupported ts
unfolding all_classes Supported
all_classes-AllSupported end h = tt
all_classes-AllSupported (spec (class c) ts) h = (tt, all_classes-AllSupported ts h)
all_classes-AllSupported (spec _ ts) h = absurd (cc)

-- Nothing else has a validator.
mutual
  unfolding get try_kind first_kind Supported

  get-Supported : (t : Spec) (w : Validator) → get t ≡ some w → Supported t
  get-Supported ignore w h = tt
  get-Supported (class c) w h = tt
  get-Supported (tuple ts) w h = elim (Bool-cases (all_classes ts)) [
    | inl classes ↦ all_classes-AllSupported ts classes
    | inr mixed ↦ let (ws, made) = get_mixed ts w mixed h in get_each-AllSupported ts ws made
  ]
  get-Supported (choice es) w h = tt
  get-Supported (each cs) w h = tt
  get-Supported other w h = absurd (cc)

  get_each-AllSupported :
      (ts : Specs) (ws : Validators) → all_made (get_each ts) ≡ some ws → AllSupported ts
  get_each-AllSupported end ws h = tt
  get_each-AllSupported (spec t ts) ws h =
      let ((w, here), (rest, there)) = all_made-cons (get t) (get_each ts) ws h in
      (get-Supported t w here, get_each-AllSupported ts rest there)

module _ (equal : Value → Value → Bool) where
  -- A tuple stands for the union of its members.
  unfoldable mutual
    pub Accepts : Spec → Value → Type 0
    Accepts ignore v = Unit
    Accepts (class c) v = is_instance v c ≡ true
    Accepts (tuple ts) v = AcceptsSome ts v
    Accepts (choice es) v = is_among equal v es ≡ true
    Accepts (each cs) v = check_items equal v cs ≡ true
    Accepts other v = ⊥

    pub AcceptsSome : Specs → Value → Type 0
    AcceptsSome end v = ⊥
    AcceptsSome (spec t ts) v = Accepts t v ⊎ AcceptsSome ts v

  -- A tuple of nothing but classes
  class_list-AcceptsSome :
      (ts : Specs) (v : Value)
      → all_classes ts ≡ true
      → (is_instance_any v (class_list ts) ≡ true) ↔ AcceptsSome ts v
  unfolding all_classes class_list is_instance_any Accepts
  class_list-AcceptsSome end v h = ground arith
  class_list-AcceptsSome (spec (class c) ts) v h = grind (arith, class_list-AcceptsSome ts v)
  class_list-AcceptsSome (spec _ ts) v h = ground arith

  count_cons :
      (w : Validator) (ws : Validators) (v : Value) {A B : Type 0}
      → (check equal w v ≡ true) ↔ A
      → (not (count equal ws v == 0) ≡ true) ↔ B
      → (not (count equal (validator w ws) v == 0) ≡ true) ↔ (A ⊎ B)
  unfolding check
  count_cons w ws v a b = elim (Bool-cases (check equal w v)) [
    | inl yes_here ↦ (λ h. inl (a.0 yes_here), λ h. ground arith)
    | inr not_here ↦ grind arith
  ]

  Judges : Spec → Validator → Type 0
  Judges t w = (v : Value) → (check equal w v ≡ true) ↔ Accepts t v

  tuple-Judges :
      (ts : Specs) (ws : Validators)
      → all_made (get_each ts) ≡ some ws
      → ((v : Value) → (not (count equal ws v == 0) ≡ true) ↔ AcceptsSome ts v)
      → (w : Validator) × (get (tuple ts) ≡ some w) × Judges (tuple ts) w
  unfolding Judges Accepts check
  tuple-Judges ts ws made counts = elim (Bool-cases (all_classes ts)) [
    | inl classes ↦ (
      multi_type (class_list ts),
      get_classes ts classes,
      λ v. class_list-AcceptsSome ts v classes,
    )
    | inr mixed ↦ (complex ws, get_union ts ws mixed made, counts)
  ]

  mutual
    unfolding get try_kind first_kind all_made check Accepts Judges Supported

    get-Accepts : (t : Spec) → Supported t → (w : Validator) × (get t ≡ some w) × Judges t w
    get-Accepts ignore s = (ignoring, refl, λ v. (λ h. tt, λ h. refl))
    get-Accepts (class c) s = (type_of c, refl, λ v. (λ h. h, λ h. h))
    get-Accepts (tuple ts) s =
        let (ws, made, counts) = get_each-Accepts ts s in tuple-Judges ts ws made counts
    get-Accepts (choice es) s = (one_of_validator es, refl, λ v. (λ h. h, λ h. h))
    get-Accepts (each cs) s = (list_of_validator cs, refl, λ v. (λ h. h, λ h. h))
    get-Accepts other s = absurd s

    get_each-Accepts :
        (ts : Specs)
        → AllSupported ts
        → (ws : Validators) × (all_made (get_each ts) ≡ some ws)
          × ((v : Value) → (not (count equal ws v == 0) ≡ true) ↔ AcceptsSome ts v)
    get_each-Accepts end s = (stop, refl, λ v. ground arith)
    get_each-Accepts (spec t ts) s =
        let (w, made, here) = get-Accepts t s.0 in
        let (ws, rest, there) = get_each-Accepts ts s.1 in
        (
          validator w ws,
          ap (λ o. all_made (o ∷ get_each ts)) made ∙ ap (Option.map (validator w)) rest,
          λ v. count_cons w ws v (here v) (there v),
        )

  -- A type has a validator exactly where the decorators take it, and its validator accepts the union
  -- of what the type's members accept, however the tuples nest and whichever class validates them.
  pub get_lem :
      (t : Spec)
      → (Supported t
          × (w : Validator) × (get t ≡ some w)
          × ((v : Value) → (check equal w v ≡ true) ↔ Accepts t v))
        ⊎ ((¬ Supported t) × (get t ≡ none))
  unfolding Judges
  get_lem t = elim (Option-cases (get t)) [
    | inl missing ↦
        inr ((λ s. let (w, made, _) = get-Accepts t s in absurd (ground arith)), missing)
    | inr (w, found) ↦
        let s = get-Supported t w found in
        let (v, made, judges) = get-Accepts t s in inl (s, v, made, judges)
  ]

-- The two sides of this, for any equality
pub Supported-get : (t : Spec) → Supported t → (w : Validator) × (get t ≡ some w)
Supported-get t s = let (w, made, _) = get-Accepts (λ v u. false) t s in (w, made)

pub get-none : (t : Spec) → ¬ Supported t → get t ≡ none
get-none t no_way = elim (Option-cases (get t)) [
  | inl missing ↦ missing
  | inr (w, found) ↦ absurd (no_way (get-Supported t w found))
]
