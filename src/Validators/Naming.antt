-- ===== src/Validators/Naming.antt =====
-- gnutls/validators.py: the names of the validators, as they stand in messages.
use python3_gnutls.Prelude.{
  leb, ◌==◌, if◌then◌else◌, Str, length, take, drop, ℕ, zero, suc, ◌-◌, Bool, true, false, ◌||◌,
  List, [], ◌∷◌, ◌++◌, map,
}
use python3_gnutls.Errors.{index_error, text, new, Result, ok, err, bind}
use python3_gnutls.Text.{codes, starts_with}
use python3_gnutls.Validators.{
  Class, Value, Validator, ignoring, type_of, multi_type, one_of_validator, list_of_validator,
  complex, Validators, stop, validator,
}

unfoldable pub join : Str → List Str → Str
join sep [] = []
join sep (s ∷ []) = s
join sep (s ∷ t ∷ ss) = s ++ sep ++ join sep (t ∷ ss)

-- `join_names`, for a list
unfoldable pub join_names : List Str → Str
unfolding join
join_names names =
    let n = length names in
    if leb n 2
    then join (codes " or ") names
    else join (codes " or ") (join (codes ", ") (take (n - 1) names) ∷ drop (n - 1) names)

-- `s.replace("NoneType", "None")`, with `skip` characters left of an occurrence
unfoldable pub replace_none : ℕ → Str → Str
unfolding starts_with
replace_none skip [] = []
replace_none (suc skip) (c ∷ s) = replace_none skip s
replace_none zero (c ∷ s) = elim (starts_with (c ∷ s) (codes "NoneType")) [
  | true ↦ codes "None" ++ replace_none 7 s
  | false ↦ c ∷ replace_none 0 s
]

unfoldable pub type_name : Class → Str
unfolding replace_none
type_name c = replace_none 0 c.name

-- `_type_names`, for a tuple
unfoldable pub type_names : List Class → Str
unfolding type_name join_names
type_names cs = join_names (map type_name cs)

abbrev is_vowel : ℕ → Bool
is_vowel c = c == b'a' || c == b'e' || c == b'i' || c == b'o' || c == b'u'

abbrev article : Str → Result Str
article [] = err (new index_error (text "string index out of range"))
article (c ∷ s) = ok ((if is_vowel c then codes "an " else codes "a ") ++ c ∷ s)

-- `Validator.name`, from the type names
unfoldable pub prefixed : Str → Result Str
unfolding starts_with
prefixed name = if starts_with name (codes "None") then ok name else article name

module _ (repr : Value → Str) where
  -- The property `name` of each validator
  unfoldable mutual
    unfolding prefixed type_name type_names join_names

    pub name : Validator → Result Str
    name ignoring = prefixed (codes "None")
    name (type_of c) = prefixed (type_name c)
    name (multi_type cs) = prefixed (type_names cs)
    name (one_of_validator es) =
        ok (codes "one of " ++ join_names (map (λ e. b'`' ∷ (repr e ++ 39 ∷ [])) es))
    name (list_of_validator cs) = ok (codes "a list of " ++ type_names cs)
    name (complex ws) = bind (names ws) λ ns. ok (join_names ns)

    pub names : Validators → Result (List Str)
    names stop = ok []
    names (validator w ws) = bind (name w) λ n. bind (names ws) λ ns. ok (n ∷ ns)
