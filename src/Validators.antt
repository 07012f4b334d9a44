-- ===== src/Validators.antt =====
-- gnutls/validators.py: the validators, which of them a type gets, and the decorators that use them.
pub mod Naming
pub mod Accepting
pub mod Preserved
pub mod Decorated
use mathlib.Core.Option
use python3_gnutls.Prelude.{
  ltb, ◌==◌, if◌then◌else◌, Str, length, ℕ, ◌+◌, Bool, true, false, not, ◌&&◌, ◌||◌, Option, none,
  some, List, [], ◌∷◌, map,
}
use python3_gnutls.Errors.{value_error, type_error, text, new, Result, ok, err}
use python3_gnutls.Text.{has_char}

-- A class: `__name__`, and the classes it derives from, itself among them.
pub record Class : Type 0 where
  pub id : ℕ
  pub name : Str
  pub ancestors : List ℕ

-- An object that is no tuple and no list, and one that is.
mutual
  pub data Value : Type 0 where
    plain : Class → ℕ → Value
    items : Class → Values → Value

  pub data Values : Type 0 where
    no_values : Values
    value : Value → Values → Values

abbrev pub class_of : Value → Class
class_of (plain c n) = c
class_of (items c vs) = c

-- `isinstance(value, c)`
unfoldable pub is_instance : Value → Class → Bool
is_instance v c = has_char c.id (class_of v).ancestors

-- `isinstance(value, cs)`
unfoldable pub is_instance_any : Value → List Class → Bool
unfolding is_instance
is_instance_any v [] = false
is_instance_any v (c ∷ cs) = is_instance v c || is_instance_any v cs

-- What the decorators take for a type. `choice` is a `one_of` object, `each` a `list_of` object.
mutual
  pub data Spec : Type 0 where
    ignore : Spec
    class : Class → Spec
    tuple : Specs → Spec
    choice : List Value → Spec
    each : List Class → Spec
    other : Spec

  pub data Specs : Type 0 where
    end : Specs
    spec : Spec → Specs → Specs

-- `one_of(*args)`
unfoldable pub one_of : List Value → Result Spec
one_of args =
    if ltb (length args) 2
    then err (new value_error (text "one_of must have at least 2 arguments"))
    else ok (choice args)

abbrev pub is_class : Spec → Bool
is_class (class c) = true
is_class _ = false

abbrev classes : List Spec → Option (List Class)
classes [] = some []
classes (class c ∷ ts) = Option.map (λ cs. c ∷ cs) (classes ts)
classes (t ∷ ts) = none

-- `list_of(*args)`
unfoldable pub list_of : List Spec → Result Spec
list_of args = elim (classes args) [
  | none ↦ err (new type_error (text "list_of arguments must be types"))
  | some cs ↦ ok (each cs)
]

-- The validator objects, with their attribute `type`.
mutual
  pub data Validator : Type 0 where
    ignoring : Validator
    type_of : Class → Validator
    multi_type : List Class → Validator
    one_of_validator : List Value → Validator
    list_of_validator : List Class → Validator
    complex : Validators → Validator

  pub data Validators : Type 0 where
    stop : Validators
    validator : Validator → Validators → Validators

-- The registered classes of validators.
pub data Kind : Type 0 where
  ignoring_kind type_kind multi_type_kind one_of_kind list_of_kind complex_kind : Kind

unfoldable pub all_classes : Specs → Bool
all_classes end = true
all_classes (spec t ts) = is_class t && all_classes ts

-- A tuple's classes, where it holds nothing else.
unfoldable pub class_list : Specs → List Class
class_list end = []
class_list (spec (class c) ts) = c ∷ class_list ts
class_list (spec _ ts) = class_list ts

-- `[Validator.get(x) for x in typ]` where none is `None`
unfoldable pub all_made : List (Option Validator) → Option Validators
all_made [] = some stop
all_made (none ∷ ws) = none
all_made (some w ∷ ws) = Option.map (validator w) (all_made ws)

-- `kind(typ)` where `kind.can_validate(typ)`. `parts` are the validators of a tuple's members.
unfoldable pub try_kind : Kind → Spec → List (Option Validator) → Option Validator
unfolding all_classes class_list all_made
try_kind ignoring_kind ignore parts = some ignoring
try_kind type_kind (class c) parts = some (type_of c)
try_kind multi_type_kind (tuple ts) parts =
    if all_classes ts then some (multi_type (class_list ts)) else none
try_kind one_of_kind (choice vs) parts = some (one_of_validator vs)
try_kind list_of_kind (each cs) parts = some (list_of_validator cs)
try_kind complex_kind (tuple ts) parts = Option.map complex (all_made parts)
try_kind _ _ parts = none

-- `Validator._registered`
abbrev pub registered : List Kind
registered =
    ignoring_kind ∷ type_kind ∷ multi_type_kind ∷ one_of_kind ∷ list_of_kind ∷ complex_kind ∷ []

-- The loop of `Validator.get`
unfoldable pub first_kind : List Kind → Spec → List (Option Validator) → Option Validator
unfolding try_kind
first_kind [] typ parts = none
first_kind (k ∷ ks) typ parts = elim (try_kind k typ parts) [
  | some w ↦ some w
  | none ↦ first_kind ks typ parts
]

-- `Validator.get`, and what it gives for a tuple's members
unfoldable mutual
  unfolding first_kind

  pub get : Spec → Option Validator
  get ignore = first_kind registered ignore []
  get (class c) = first_kind registered (class c) []
  get (tuple ts) = first_kind registered (tuple ts) (get_each ts)
  get (choice vs) = first_kind registered (choice vs) []
  get (each cs) = first_kind registered (each cs) []
  get other = first_kind registered other []

  pub get_each : Specs → List (Option Validator)
  get_each end = []
  get_each (spec t ts) = get t ∷ get_each ts

module _ (equal : Value → Value → Bool) where
  -- `value in self.type`; `equal` is `is` or `==`.
  unfoldable pub is_among : Value → List Value → Bool
  is_among v [] = false
  is_among v (e ∷ es) = equal v e || is_among v es

  -- `not [x for x in value if not isinstance(x, self.type)]`
  unfoldable pub all_instances : Values → List Class → Bool
  unfolding is_instance_any
  all_instances no_values cs = true
  all_instances (value v vs) cs = is_instance_any v cs && all_instances vs cs

  abbrev pub check_items : Value → List Class → Bool
  check_items (plain c n) cs = false
  check_items (items c vs) cs = all_instances vs cs

  -- The `check` of each validator, and the sum over those of a `ComplexValidator`
  unfoldable mutual
    unfolding is_among all_instances is_instance is_instance_any

    pub check : Validator → Value → Bool
    check ignoring v = true
    check (type_of c) v = is_instance v c
    check (multi_type cs) v = is_instance_any v cs
    check (one_of_validator es) v = is_among v es
    check (list_of_validator cs) v = check_items v cs
    check (complex ws) v = not (count ws v == 0)

    pub count : Validators → Value → ℕ
    count stop v = 0
    count (validator w ws) v = (if check w v then 1 else 0) + count ws v
