-- ===== src/Constants/Table/Bounds.antt =====
-- The range of the constants.
use python3_gnutls.Prelude.{
  Bool-cases, All, ℤ, pos, negsuc, ◌≤ℤ◌, leb_ℤ, ℕ, ◌-◌, ◌^◌, String, ◌≡◌, refl, ◌⊎◌, inl, inr, Bool,
  true, false, not, ◌&&◌, ◌||◌, Option, List, [], ◌∷◌, arith,
}
use python3_gnutls.Errors.{Exception, err}
use python3_gnutls.Text.{codes, str_eq, starts_with}
use python3_gnutls.Status.{check_status}
use python3_gnutls.Status.Laws.{check_status_negative}
use python3_gnutls.Constants.Entry.{Constant, number, words}
use python3_gnutls.Constants.Table.{constants}

-- The name of a failure
unfoldable pub is_failure : String → Bool
unfolding starts_with str_eq
is_failure name =
    starts_with (codes name) (codes "GNUTLS_E_")
    && not (str_eq (codes name) (codes "GNUTLS_E_SUCCESS"))

-- A number that a C `int` holds
abbrev pub IsInt : ℤ → Type 0
IsInt v = (negsuc (2 ^ 31 - 1) ≤ℤ v) × (v ≤ℤ pos (2 ^ 31 - 1))

-- Whatever message a function has and whatever alert was received, the status raises.
abbrev pub Raises : ℤ → Type 0
Raises v =
    (errmsg : Option String) (alert : ℕ)
    → (e : Exception) × (check_status errmsg (record { retcode = v; alert = alert }) ≡ err e)

-- The number is a C `int`, and raises if it is the code of a failure.
abbrev pub InRange : Constant → Type 0
InRange (number name v) = IsInt v × ((is_failure name ≡ false) ⊎ Raises v)
InRange (words name s) = Unit

abbrev is_negative : ℤ → Bool
is_negative (pos n) = false
is_negative (negsuc n) = true

abbrev is_good : Constant → Bool
is_good (number name v) =
    leb_ℤ (negsuc (2 ^ 31 - 1)) v
    && leb_ℤ v (pos (2 ^ 31 - 1))
    && (not (is_failure name) || is_negative v)
is_good (words name s) = true

unfoldable all_good : List Constant → Bool
all_good [] = true
all_good (c ∷ cs) = is_good c && all_good cs

constants_good : all_good constants ≡ true
unfolding all_good is_failure
constants_good = refl

negative-Raises : (v : ℤ) → is_negative v ≡ true → Raises v
negative-Raises (pos n) h = absurd (cc)
negative-Raises (negsuc n) h = λ errmsg alert.
    check_status_negative errmsg (record { retcode = negsuc n; alert = alert }) n refl

good-InRange : (c : Constant) → is_good c ≡ true → InRange c
good-InRange (words name s) h = tt
good-InRange (number name v) h = (
  (ground arith, ground arith),
  elim (Bool-cases (is_failure name)) [
    | inl failure ↦ inr (negative-Raises v (ground arith))
    | inr other ↦ inl other
  ],
)

All-InRange : (cs : List Constant) → all_good cs ≡ true → All InRange cs
unfolding all_good
All-InRange [] h = tt
All-InRange (c ∷ cs) h = (good-InRange c (ground arith), All-InRange cs (ground arith))

-- Every number in the table is a C `int`, and the status check raises for every GNUTLS_E_ code but
-- that of success, whatever message a function has and whatever alert was received.
pub constants-InRange : All InRange constants
constants-InRange = All-InRange constants constants_good
