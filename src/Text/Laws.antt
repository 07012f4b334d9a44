-- ===== src/Text/Laws.antt =====
-- The text tests say what their names promise.
use python3_gnutls.Prelude.{
  ℕ, ◌-◌, ◌≡◌, refl, ◌≢◌, ◌↔◌, ◌∙◌, ap, sym, true, false, [], ◌∷◌, ◌++◌, Str, length, take, drop,
  All, arith, length-append, take-append-drop, drop-append_self, take-append_self,
}
use python3_gnutls.Text.{str_eq, starts_with, ends_with, has_char}

pub str_eq-eq : (s t : Str) → str_eq s t ≡ true → s ≡ t
unfolding str_eq
str_eq-eq [] [] h = refl
str_eq-eq [] (d ∷ t) h = cc
str_eq-eq (c ∷ s) [] h = cc
str_eq-eq (c ∷ s) (d ∷ t) h = ground (arith, str_eq-eq s t)

pub str_eq_self : (s : Str) → str_eq s s ≡ true
unfolding str_eq
str_eq_self [] = refl
str_eq_self (c ∷ s) = ground (arith, str_eq_self s)

pub str_eq_iff : (s t : Str) → (str_eq s t ≡ true) ↔ (s ≡ t)
str_eq_iff s t = (str_eq-eq s t, λ e. ap (str_eq s) (sym e) ∙ str_eq_self s)

pub starts_with-append : (t s : Str) → starts_with (t ++ s) t ≡ true
unfolding starts_with
starts_with-append [] s = refl
starts_with-append (c ∷ t) s = ground (arith, starts_with-append t s)

pub starts_with-eq : (s t : Str) → starts_with s t ≡ true → s ≡ t ++ drop (length t) s
unfolding starts_with
starts_with-eq s [] h = refl
starts_with-eq [] (d ∷ t) h = cc
starts_with-eq (c ∷ s) (d ∷ t) h = ground (arith, starts_with-eq s t)

-- What `endswith` accepts is the part before, and the suffix.
pub ends_with-eq : (s t : Str) → ends_with s t ≡ true → s ≡ take (length s - length t) s ++ t
unfolding ends_with
ends_with-eq s t h =
    ground
      (arith, str_eq-eq (drop (length s - length t) s) t, take-append-drop (length s - length t) s)

length-sub : (s t : Str) → length (s ++ t) - length t ≡ length s
length-sub s t = omega (arith, length-append s t)

pub take-sub_append : (s t : Str) → take (length (s ++ t) - length t) (s ++ t) ≡ s
take-sub_append s t = rw (length-sub s t) (take-append_self s t)

pub ends_with-append : (s t : Str) → ends_with (s ++ t) t ≡ true
unfolding ends_with
ends_with-append s t =
    rw (length-sub s t, drop-append_self s t, str_eq_self t) (ground (arith, length-append s t))

pub has_char-append : (c : ℕ) (s t : Str) → has_char c (s ++ t) ≡ false → has_char c s ≡ false
unfolding has_char
has_char-append c [] t h = refl
has_char-append c (d ∷ s) t h = ground (arith, has_char-append c s t)

abbrev pub Lacks : ℕ → Str → Type 0
Lacks c = All (λ d. c ≢ d)

pub has_char_iff : (c : ℕ) (s : Str) → (has_char c s ≡ false) ↔ Lacks c s
unfolding has_char
has_char_iff c [] = (λ h. tt, λ h. refl)
has_char_iff c (d ∷ s) = ground (arith, has_char_iff c s)
