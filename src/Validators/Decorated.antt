-- ===== src/Validators/Decorated.antt =====
-- gnutls/validators.py: `_callable_args`, `function_args` and `method_args`.
pub mod Transparent
use python3_gnutls.Prelude.{
  if◌then◌else◌, Str, ℕ, zero, suc, Bool, Option, none, some, List, [], ◌∷◌,
}
use python3_gnutls.Errors.{
  type_error, index_error, text, format, Exception, new, Result, ok, err, bind,
}
use python3_gnutls.Text.{has_char}
use python3_gnutls.Validators.{Value, class_of, Spec, tuple, Validator, get, check}
use python3_gnutls.Validators.Naming.{name}
use python3_gnutls.Validators.Preserved.{Parameter, Define, preserve_signature, called_with}

module _ (show : Spec → ℕ → Str) where
  -- What is raised for the type at a position; `show` fills in both.
  abbrev pub refusal : Spec → ℕ → Exception
  refusal arg n =
      new type_error
        (format "unsupported type `%r' at position %d for argument checking decorator" (show arg n))

  -- The first loop of `_callable_args`
  unfoldable pub make_validators : ℕ → List Spec → Result (List Validator)
  make_validators i [] = ok []
  make_validators i (arg ∷ args) = elim (get arg) [
    | none ↦ err (refusal arg (suc i))
    | some w ↦ bind (make_validators (suc i) args) λ ws. ok (w ∷ ws)
  ]

-- `func_args[pos]`
unfoldable pub argument : ℕ → List Value → Option Value
argument i [] = none
argument zero (v ∷ vs) = some v
argument (suc i) (v ∷ vs) = argument i vs

-- `bytes`
abbrev pub bytes_id : ℕ
bytes_id = 1

unfoldable pub is_bytes : Value → Bool
is_bytes v = has_char bytes_id (class_of v).ancestors

module _ (equal : Value → Value → Bool) (repr : Value → Str) where
  -- What the body of the loop in `check_args` raises.
  unfoldable pub check_argument : Validator → Value → Result (Unit {0})
  unfolding is_bytes
  check_argument w v =
      if check equal w v
      then ok tt
      else if is_bytes v
      then bind (name repr w) (λ _. ok tt)
      else ok tt

  -- The loop of `check_args`
  unfoldable pub check_arguments : ℕ → List Validator → List Value → Result (Unit {0})
  unfolding check_argument argument
  check_arguments i [] args = ok tt
  check_arguments i (w ∷ ws) args = elim (argument i args) [
    | none ↦ err (new index_error (text "tuple index out of range"))
    | some v ↦ bind (check_argument w v) λ _. check_arguments i ws args
  ]

  -- `check_args`
  unfoldable pub check_args :
      {R : Type 0} → ℕ → List Validator → (List Value → Result R) → List Value → Result R
  unfolding check_arguments
  check_args start validators func args =
      bind (check_arguments start validators args) λ _. func args

  -- What Python does where the decorators define a function: `define` and `str` of the defaults.
  module _ (define : Define) (str : Value → Str) where
    -- `_callable_args(*args, _start=start)(func)(*func_args)`, of a function with the parameters `ps`
    unfoldable pub callable_args :
        {R : Type 0}
        → (Spec → ℕ → Str)
        → ℕ
        → List Spec
        → List Parameter
        → (List Value → Result R)
        → List Value
        → Result R
    unfolding make_validators check_args preserve_signature
    callable_args show start args ps func func_args =
        bind (make_validators show 0 args) λ validators.
          called_with (preserve_signature define str ps (check_args start validators func))
            func_args

    -- `function_args` and `method_args`
    unfoldable pub function_args :
        {R : Type 0}
        → (Spec → ℕ → Str)
        → List Spec
        → List Parameter
        → (List Value → Result R)
        → List Value
        → Result R
    unfolding callable_args
    function_args show = callable_args show 0

    unfoldable pub method_args :
        {R : Type 0}
        → (Spec → ℕ → Str)
        → List Spec
        → List Parameter
        → (List Value → Result R)
        → List Value
        → Result R
    unfolding callable_args
    method_args show = callable_args show 1
