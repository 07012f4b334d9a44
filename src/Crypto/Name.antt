-- ===== src/Crypto/Name.antt =====
-- gnutls/crypto.py, `X509NameMeta` and `X509Name`: a distinguished name taken apart into attributes.
pub mod Parse
pub mod RoundTrip
pub mod ReadOnly
use python3_gnutls.Prelude.{
  ℕ, Bool, true, false, ◌&&◌, not, Option, none, some, List, [], ◌∷◌, ◌++◌, map, Str, ◌==◌,
  if◌then◌else◌,
}
use python3_gnutls.Errors.{
  value_error, attribute_error, text, format, new, Exception, Result, ok, err, bind,
}
use python3_gnutls.Text.{codes, str_eq}
use python3_gnutls.Dict.{Dict, lookup, insert}

abbrev pub comma : ℕ
comma = b','

abbrev pub backslash : ℕ
backslash = 92

abbrev pub equals : ℕ
equals = b'='

-- `X509NameMeta.long_names`
abbrev pub long_names : List (Str × Str)
long_names =
    (codes "country", codes "C")
    ∷ (codes "state", codes "ST")
    ∷ (codes "locality", codes "L")
    ∷ (codes "common_name", codes "CN")
    ∷ (codes "organization", codes "O")
    ∷ (codes "organization_unit", codes "OU")
    ∷ (codes "email", codes "EMAIL")
    ∷ []

-- `X509Name.ids`
abbrev pub ids : List Str
ids = map (λ p. p.1) long_names

unfoldable pub member : Str → List Str → Bool
member s [] = false
member s (t ∷ ts) = if str_eq t s then true else member s ts

-- The names that are properties of the class, which have no setter.
unfoldable pub is_long_name : Str → Bool
unfolding member
is_long_name n = member n (map (λ p. p.0) long_names)

abbrev pub Attributes : Type 0
Attributes = Dict (Option Str)

pub record X509Name : Type 0 where
  pub dname : Str
  pub attributes : Attributes

-- `re.split(r"(?<!\\),", dname)`: `escaped` says that the character before is a backslash.
unfoldable pub split_commas : Bool → Str → Str → List Str
split_commas escaped part [] = part ∷ []
split_commas escaped part (c ∷ s) = elim (c == comma && not escaped) [
  | true ↦ part ∷ split_commas false [] s
  | false ↦ split_commas (c == backslash) (part ++ c ∷ []) s
]

-- `x.replace("\\,", ",")`
unfoldable pub unescape : Str → Str
unescape [] = []
unescape (c ∷ []) = c ∷ []
unescape (c ∷ d ∷ s) = elim (c == backslash && d == comma) [
  | true ↦ comma ∷ unescape s
  | false ↦ c ∷ unescape (d ∷ s)
]

abbrev add_front : ℕ → Option (Str × Str) → Option (Str × Str)
add_front c none = none
add_front c (some (n, v)) = some (c ∷ n, v)

-- `pair.split("=", 1)`, where it has two parts
unfoldable pub split_pair : Str → Option (Str × Str)
split_pair [] = none
split_pair (c ∷ s) = if c == equals then some ([], s) else add_front c (split_pair s)

-- `str.__setattr__`, where a property of the class has no setter
unfoldable pub set_attribute : Str → Option Str → Attributes → Result Attributes
set_attribute name value attrs =
    if is_long_name name
    then err (new attribute_error (text "can't set attribute"))
    else ok (insert name value attrs)

abbrev pub invalid_name : Str → Exception
invalid_name dname = new value_error (format "Invalid X509 distinguished name: %s" dname)

-- The body of the loop over the pairs.
abbrev pub assign : Str → Option (Str × Str) → Attributes → Result Attributes
assign dname none attrs = err (invalid_name dname)
assign dname (some (name, value)) attrs = set_attribute name (some value) attrs

unfoldable pub assign_pairs : Str → List Str → Attributes → Result Attributes
assign_pairs dname [] attrs = ok attrs
assign_pairs dname (pair ∷ pairs) attrs =
    bind (assign dname (split_pair pair) attrs) (assign_pairs dname pairs)

-- `None` for every id that is not set
unfoldable pub set_defaults : List Str → Attributes → Attributes
set_defaults [] attrs = attrs
set_defaults (i ∷ is) attrs =
    set_defaults is (elim (lookup i attrs) [ none ↦ insert i none attrs | some _ ↦ attrs ])

-- `X509Name.__init__`
unfoldable pub init_name : Str → Result X509Name
unfolding split_commas unescape split_pair assign_pairs is_long_name set_attribute set_defaults
init_name dname =
    bind (assign_pairs dname (map unescape (split_commas false [] dname)) [])
      λ attrs. ok (record { dname = dname; attributes = set_defaults ids attrs })

-- `X509Name.__setattr__`
unfoldable pub set_name : Str → Option Str → X509Name → Result X509Name
unfolding member set_attribute
set_name name value x =
    if member name ids
    then err (new attribute_error (text "can't set attribute"))
    else bind (set_attribute name value x.attributes) λ attrs. ok (record x { attributes = attrs })

abbrev pub flatten_value : Option (Option Str) → Option Str
flatten_value none = none
flatten_value (some v) = v

-- A long name's property, `getattr(self, short_name, None)`.
unfoldable pub get_long : Str → X509Name → Option Str
get_long short x = flatten_value (lookup short x.attributes)
