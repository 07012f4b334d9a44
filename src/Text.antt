-- ===== src/Text.antt =====
-- Python's `str` and `bytes` methods that the program calls, over lists of code points and bytes.
pub mod Laws
use Prim.Native.Char.{code}
use python3_gnutls.Prelude.{
  ℕ, zero, suc, ◌+◌, ◌-◌, Bool, true, false, ◌&&◌, ◌||◌, Option, none, some, String, List, [], ◌∷◌,
  ◌++◌, Str, Bytes, length, take, drop, ltb, leb, ◌==◌, if◌then◌else◌,
}
use python3_gnutls.Errors.{unicode_decode_error, text, new, Result, ok, err}

-- The code points of a literal.
abbrev pub codes : String → Str
codes String.[] = []
codes (String.◌∷◌ c s) = code c ∷ codes s

-- `s == t`
unfoldable pub str_eq : Str → Str → Bool
str_eq [] [] = true
str_eq [] (d ∷ t) = false
str_eq (c ∷ s) [] = false
str_eq (c ∷ s) (d ∷ t) = c == d && str_eq s t

-- `s.startswith(t)`
unfoldable pub starts_with : Str → Str → Bool
starts_with s [] = true
starts_with [] (d ∷ t) = false
starts_with (c ∷ s) (d ∷ t) = c == d && starts_with s t

-- `s.endswith(t)`
unfoldable pub ends_with : Str → Str → Bool
unfolding str_eq
ends_with s t = leb (length t) (length s) && str_eq (drop (length s - length t) s) t

-- `c in s`, for one character
unfoldable pub has_char : ℕ → Str → Bool
has_char c [] = false
has_char c (d ∷ s) = c == d || has_char c s

-- What Python's tables say of the characters above 127, and of the bytes of a text that has some.
pub record Unicode : Type 0 where
  pub lower_high : ℕ → Str
  pub decode_high : Bytes → Option Str

unfoldable pub is_ascii : Bytes → Bool
is_ascii [] = true
is_ascii (b ∷ bs) = ltb b 128 && is_ascii bs

module _ (u : Unicode) where
  unfoldable pub lower_char : ℕ → Str
  lower_char c =
      if leb b'A' c && leb c b'Z'
      then (c + 32) ∷ []
      else if ltb c 128
      then c ∷ []
      else u.lower_high c

  -- `s.lower()`
  unfoldable pub lower : Str → Str
  unfolding lower_char
  lower [] = []
  lower (c ∷ s) = lower_char c ++ lower s

  -- `b.decode()`, which raises where the bytes are no UTF-8
  unfoldable pub decode : Bytes → Result Str
  unfolding is_ascii
  decode b = if is_ascii b then ok b else elim (u.decode_high b) [
    | none ↦ err (new unicode_decode_error (text "invalid UTF-8"))
    | some s ↦ ok s
  ]
