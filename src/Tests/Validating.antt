-- ===== src/Tests/Validating.antt =====
-- The validators on a few types.
use python3_gnutls.Prelude.{
  ◌==◌, if◌then◌else◌, ◌++◌, Str, length, ℕ, ◌≡◌, ◌↔◌, ◌⊎◌, Bool, true, false, none, some, List, [],
  ◌∷◌,
}
use python3_gnutls.Errors.{type_error, text, new, Result, ok, err}
use python3_gnutls.Validators.{
  Class, Value, plain, Spec, class, tuple, choice, end, spec, Validator, get, check,
}
use python3_gnutls.Validators.Accepting.{Supported, Accepts, get_lem}
use python3_gnutls.Text.{codes, str_eq}
use python3_gnutls.Validators.Preserved.{Parameter, Define, bind_arguments}

abbrev integer : Class
integer = record { id = 3; name = b'i' ∷ b'n' ∷ b't' ∷ []; ancestors = 3 ∷ 0 ∷ [] }

abbrev words_class : Class
words_class = record { id = 4; name = b's' ∷ b't' ∷ b'r' ∷ []; ancestors = 4 ∷ 0 ∷ [] }

-- An integer, or one of two values
abbrev union : Spec
union =
    tuple
      (spec (class integer) (spec (choice (plain words_class 1 ∷ plain words_class 2 ∷ [])) end))

abbrev same : Value → Value → Bool
same (plain c m) (plain d n) = m == n
same v w = false

get_example :
    (Supported union
      × (w : Validator) × (get union ≡ some w)
      × ((v : Value) → (check same w v ≡ true) ↔ Accepts same union v))
    ⊎ ((¬ Supported union) × (get union ≡ none))
get_example = get_lem same union

abbrev no_repr : Value → Str
no_repr v = []

abbrev no_show : Spec → ℕ → Str
no_show t n = []

abbrev count_arguments : List Value → Result ℕ
count_arguments args = ok (length args)

-- A method with an argument and an optional one
abbrev own_parameters : List Parameter
own_parameters =
    record { name = codes "self"; default = none }
    ∷ record { name = codes "n"; default = none }
    ∷ []

abbrev more_parameters : List Parameter
more_parameters = record { name = codes "k"; default = some (plain integer 5) } ∷ []

abbrev decimal : Value → Str
decimal v = codes "5"

-- Python, as far as it is asked about this signature
abbrev reading : Define
reading s p =
    if str_eq s (codes "(self, n, k=5)")
    then ok (bind_arguments (none ∷ none ∷ some (plain integer 5) ∷ []))
    else err (new type_error (text "another signature"))

abbrev all_arguments : List Value
all_arguments = (plain integer 9 ∷ plain words_class 8 ∷ []) ++ plain integer 5 ∷ []
