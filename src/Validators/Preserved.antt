-- ===== src/Validators/Preserved.antt =====
-- gnutls/validators.py, `preserve_signature`: a function in front of a wrapper, which Python compiles
-- from the text of a signature.
use python3_gnutls.Prelude.{
  if◌then◌else◌, Str, Bool, ◌||◌, Option, none, some, List, [], ◌∷◌, ◌++◌, map,
}
use python3_gnutls.Errors.{type_error, text, new, Result, ok, err, bind}
use python3_gnutls.Text.{codes, starts_with}
use python3_gnutls.Validators.{Value}

-- An item of `signature(func).parameters`. The source looks neither at its kind nor at a star.
pub record Parameter : Type 0 where
  pub name : Str
  pub default : Option Value

-- `part in s`
unfoldable pub has_part : Str → Str → Bool
unfolding starts_with
has_part part [] = starts_with [] part
has_part part (c ∷ s) = starts_with (c ∷ s) part || has_part part s

-- `str(item[1].default)`, by `str` of the values; a parameter without a default has a class there.
abbrev pub default_text : (Value → Str) → Parameter → Str
default_text str p = elim p.default [ none ↦ codes "<class 'inspect._empty'>" | some v ↦ str v ]

-- The item's part of the signature
unfoldable pub printed : (Value → Str) → Parameter → Str
unfolding has_part
printed str p =
    if has_part (codes "empty") (default_text str p)
    then p.name
    else p.name ++ codes "=" ++ default_text str p

-- `', '.join(parts)`
unfoldable pub join_parts : List Str → Str
join_parts [] = []
join_parts (p ∷ []) = p
join_parts (p ∷ q ∷ ps) = p ++ codes ", " ++ join_parts (q ∷ ps)

abbrev pub in_parentheses : List Str → Str
in_parentheses parts = codes "(" ++ join_parts parts ++ codes ")"

unfoldable pub signature : (Value → Str) → List Parameter → Str
unfolding printed join_parts
signature str ps = in_parentheses (map (printed str) ps)

unfoldable pub parameters : List Parameter → Str
unfolding join_parts
parameters ps = in_parentheses (map (λ p. p.name) ps)

-- What Python makes of `def f<signature>: return wrapper<parameters>` where the constants among the
-- defaults are imported: an exception, or how the arguments of a call become those of the wrapper.
abbrev pub Define : Type 0
Define = (signature parameters : Str) → Result (List Value → Result (List Value))

-- `preserve_signature(func)(wrapper)`, of the parameters of `func`
unfoldable pub preserve_signature :
    {R : Type 0}
    → Define
    → (Value → Str)
    → List Parameter
    → (List Value → Result R)
    → Result (List Value → Result R)
unfolding signature parameters
preserve_signature define str ps wrapper =
    bind (define (signature str ps) (parameters ps))
      λ forward. ok (λ func_args. bind (forward func_args) wrapper)

-- How Python binds positional arguments to parameters with these defaults
unfoldable pub bind_arguments : List (Option Value) → List Value → Result (List Value)
bind_arguments [] [] = ok []
bind_arguments [] (v ∷ vs) = err (new type_error (text "too many positional arguments"))
bind_arguments (d ∷ ds) (v ∷ vs) = bind (bind_arguments ds vs) λ bound. ok (v ∷ bound)
bind_arguments (some d ∷ ds) [] = bind (bind_arguments ds []) λ bound. ok (d ∷ bound)
bind_arguments (none ∷ ds) [] = err (new type_error (text "missing a positional argument"))

-- A call of what a decorator made
abbrev pub called_with : {R : Type 0} → Result (List Value → Result R) → List Value → Result R
called_with decorated func_args = bind decorated λ f. f func_args
