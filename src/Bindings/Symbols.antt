-- ===== src/Bindings/Symbols.antt =====
-- What the declarations of gnutls/library/functions.py promise to the code that calls them.
use python3_gnutls.Prelude.{
  All, All-append, String, ◌≡◌, refl, ◌⊎◌, Bool, true, false, not, ◌&&◌, ◌||◌, List, [], ◌∷◌, arith,
}
use python3_gnutls.Text.{codes, str_eq}
use python3_gnutls.Bindings.Entry.{Binding, name_of, has_errmsg, is_integer, is_checked, is_own}
use python3_gnutls.Bindings.Table.{standard, openpgp, srp, group, bindings}

-- The one function whose name stands for another C function, and the one name that is assigned again.
abbrev pub exceptions : List String
exceptions = "gnutls_pubkey_export_dsa_raw" ∷ "gnutls_cipher_get_tag_size" ∷ []

unfoldable pub is_among : String → List String → Bool
is_among n [] = false
is_among n (m ∷ ms) = str_eq (codes m) (codes n) || is_among n ms

-- A binding is as it should be: the C function of its own name, and checked where it has an `errmsg`.
abbrev is_good : Binding → Bool
is_good b = (is_own b || is_among (name_of b) exceptions) && (not (has_errmsg b) || is_checked b)

unfoldable all_good : List Binding → Bool
all_good [] = true
all_good (b ∷ bs) = is_good b && all_good bs

standard_good : all_good standard ≡ true
unfolding all_good is_own is_checked is_integer str_eq is_among
standard_good = refl

openpgp_good : all_good openpgp ≡ true
unfolding all_good is_own is_checked is_integer str_eq is_among
openpgp_good = refl

srp_good : all_good srp ≡ true
unfolding all_good is_own is_checked is_integer str_eq is_among
srp_good = refl

-- What `is_good` says.
abbrev pub Declared : Binding → Type 0
Declared b =
    ((is_own b ≡ true) ⊎ (is_among (name_of b) exceptions ≡ true))
    × ((has_errmsg b ≡ false) ⊎ (is_checked b ≡ true))

good-Declared : (b : Binding) → is_good b ≡ true → Declared b
good-Declared b h = ground arith

All-Declared : (bs : List Binding) → all_good bs ≡ true → All Declared bs
unfolding all_good
All-Declared [] h = tt
All-Declared (b ∷ bs) h = (good-Declared b (ground arith), All-Declared bs (ground arith))

group-Declared :
    (present : Bool) (bs : List Binding) → all_good bs ≡ true → All Declared (group present bs)
group-Declared true bs h = All-Declared bs h
group-Declared false bs h = tt

-- Whatever groups the library has, every declared name but two stands for the C function of that
-- name, and every function that has a message of its own for failures goes through the status check.
pub bindings-Declared : (has : String → Bool) → All Declared (bindings has)
bindings-Declared has = All-append Declared standard _ (All-Declared standard standard_good) (
    All-append Declared (group (has "gnutls_certificate_set_openpgp_key") openpgp) _
      (group-Declared (has "gnutls_certificate_set_openpgp_key") openpgp openpgp_good)
      (group-Declared (has "gnutls_srp_allocate_client_credentials") srp srp_good))
