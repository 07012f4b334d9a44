-- ===== src/Validators/Decorated/Transparent.antt =====
-- What the decorators of gnutls/validators.py let through, which is every argument of a call.
use python3_gnutls.Prelude.{
  Str, length, All, ℕ, suc, ◌+◌, ◌≡◌, ap, subst, Bool, Option, none, some, List, [], ◌∷◌, ◌++◌, map,
  arith,
}
use python3_gnutls.Errors.{index_error, text, new, Result, ok, err, bind}
use python3_gnutls.Validators.{Value, Spec}
use python3_gnutls.Validators.Accepting.{Supported, Supported-get, get-none}
use python3_gnutls.Validators.Preserved.{
  Parameter, Define, signature, parameters, preserve_signature, bind_arguments, called_with,
}
use python3_gnutls.Validators.Decorated.{refusal, make_validators, check_args, callable_args}

make_validators_stop :
    (show : Spec → ℕ → Str) (i : ℕ) (before : List Spec) (t : Spec) (after : List Spec)
    → All Supported before
    → ¬ Supported t
    → make_validators show i (before ++ t ∷ after) ≡ err (refusal show t (suc (i + length before)))
unfolding make_validators
make_validators_stop show i [] t after s u =
    let missing = get-none t u in let same : i ≡ i + 0 = omega arith in grind arith
make_validators_stop show i (b ∷ before) t after s u =
    let (w, made) = Supported-get b s.0 in
    let rest = make_validators_stop show (suc i) before t after s.1 u in
    let same : suc i + length before ≡ i + suc (length before) = omega arith in grind arith

-- What a call comes to, by the first argument that is looked at
abbrev pub called : {R : Type 0} → Option Value → Result R → Result R
called none result = err (new index_error (text "tuple index out of range"))
called (some v) result = result

module _ (equal : Value → Value → Bool) (repr : Value → Str) (show : Spec → ℕ → Str) where
  -- Python reads the printed signature back: the function that it compiles has the defaults of the
  -- parameters and hands all of them on.
  abbrev pub ReadsBack : Define → (Value → Str) → List Parameter → Type 0
  ReadsBack define str ps =
      define (signature str ps) (parameters ps) ≡ ok (bind_arguments (map (λ p. p.default) ps))

  -- A declared type that no validator takes is refused when the function is decorated, the first
  -- such type by its position, which counts from 1.
  pub callable_args_unsupported :
      {R : Type 0} (define : Define) (str : Value → Str) (start : ℕ) (before : List Spec) (t : Spec)
      (after : List Spec) (ps : List Parameter) (func : List Value → Result R)
      (func_args : List Value)
      → All Supported before
      → ¬ Supported t
      → callable_args equal repr define str show start (before ++ t ∷ after) ps func func_args
        ≡ err (refusal show t (suc (length before)))
  unfolding callable_args
  callable_args_unsupported define str start before t after ps func func_args s u =
      let same : 0 + length before ≡ length before = omega arith in
      ap
        (λ m. bind m (λ ws.
          called_with (preserve_signature define str ps (check_args equal repr start ws func))
            func_args))
        (subst (λ n. make_validators show 0 (before ++ t ∷ after) ≡ err (refusal show t (suc n)))
          same (make_validators_stop show 0 before t after s u))
