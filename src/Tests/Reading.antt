-- ===== src/Tests/Reading.antt =====
-- gnutls/crypto.py on a small certificate: buffers, names, serial numbers and exports.
use python3_gnutls.Prelude.{
  Str, Bytes, All, pos, negsuc, ◌≤ℤ◌, ℕ, zero, suc, ◌≡◌, refl, ◌⊎◌, true, false, none, List, [],
  ◌∷◌, ◌++◌,
}
use python3_gnutls.Errors.{memory_error, gnutls_error, is_subclass, Exception, ok, err, bind}
use python3_gnutls.Constants.Code
use python3_gnutls.Status.{returns, check_status}
use python3_gnutls.Status.Laws.{check_status_lem}
use python3_gnutls.Text.{codes, str_eq, has_char, Unicode}
use python3_gnutls.Text.Laws.{has_char_iff}
use python3_gnutls.Dict.{lookup}
use python3_gnutls.Buffer.{Fill, c_value}
use python3_gnutls.Crypto.Name.{comma, backslash, equals, is_long_name, X509Name, init_name}
use python3_gnutls.Crypto.Name.Parse.{escape}
use python3_gnutls.Crypto.Name.RoundTrip.{Pair, render, IsPlain, expected, init_name-render}
use python3_gnutls.Crypto.Certificate.{CertificateLibrary}
use python3_gnutls.Crypto.AltNames.{names_of, append_name, read_alternative_names}
use python3_gnutls.Crypto.AltNames.Grouping.{written}
use python3_gnutls.Tests.Library.{serving}

check_status_example :
    ((pos 0 ≤ℤ Code.interrupted)
      × (check_status none (returns Code.interrupted) ≡ ok Code.interrupted))
    ⊎ ((Code.interrupted ≤ℤ negsuc 0)
        × (e : Exception) × (check_status none (returns Code.interrupted) ≡ err e)
        × ((is_subclass e.class gnutls_error ≡ true) ⊎ (e.class ≡ memory_error)))
check_status_example = check_status_lem none (returns Code.interrupted)

abbrev no_unicode : Unicode
no_unicode = record { lower_high = λ c. c ∷ []; decode_high = λ b. none }

-- O=A,B and CN=b
abbrev organization : Pair
organization = (codes "O", codes "A,B")

abbrev common : Pair
common = (codes "CN", codes "b")

plain :
    (n v : Str)
    → has_char equals n ≡ false
    → has_char comma n ≡ false
    → has_char backslash n ≡ false
    → has_char backslash v ≡ false
    → is_long_name n ≡ false
    → IsPlain (n, v)
plain n v h1 h2 h3 h4 h5 = record {
  no_equals = (has_char_iff equals n).0 h1;
  no_comma = (has_char_iff comma n).0 h2;
  no_backslash = (has_char_iff backslash n).0 h3;
  plain_value = (has_char_iff backslash v).0 h4;
  settable = h5;
}

organization-IsPlain : IsPlain organization
unfolding has_char is_long_name str_eq
organization-IsPlain = plain (codes "O") (codes "A,B") refl refl refl refl refl

common-IsPlain : IsPlain common
unfolding has_char is_long_name str_eq
common-IsPlain = plain (codes "CN") (codes "b") refl refl refl refl refl

both-IsPlain : All IsPlain (organization ∷ common ∷ [])
both-IsPlain = (organization-IsPlain, (common-IsPlain, tt))

init_name-render_example :
    (x : X509Name) × (init_name (render (organization ∷ common ∷ [])) ≡ ok x)
    × (x.dname ≡ render (organization ∷ common ∷ []))
    × ((k : Str) → lookup k x.attributes ≡ expected k (organization ∷ common ∷ []))
init_name-render_example = init_name-render organization (common ∷ []) both-IsPlain

abbrev dname : Str
dname = codes "O=A\\,B,CN=b"

rendered : render (organization ∷ common ∷ []) ≡ dname
unfolding render escape
rendered = refl

-- A library with one certificate, number 7.
abbrev small_library : Bytes → Bytes → CertificateLibrary
small_library dn serial = record {
  get_dn = λ c. serving 0 (dn ++ 0 ∷ []);
  get_issuer_dn = λ c. serving 0 (dn ++ 0 ∷ []);
  get_serial = λ c. serving 0 serial;
  get_subject_alt_name =
      λ c i b n. record { reply = returns Code.requested_data_not_available; buffer = b; size = n };
  get_activation_time = λ c. returns (pos 1000);
  get_expiration_time = λ c. returns (pos 2000);
  get_version = λ c. returns (pos 3);
  check_issuer = λ c i. returns (pos 1);
  check_hostname = λ c h. returns (pos 0);
  export_to = λ c f. serving 0 dn;
}

abbrev serial_bytes : Bytes
serial_bytes = 10 ∷ 255 ∷ []

-- A DNS name and an IP address, of which the library writes four bytes and no more.
abbrev entries : List (ℕ × Bytes)
entries = (1, codes "a.b") ∷ (4, 192 ∷ 0 ∷ 2 ∷ 1 ∷ []) ∷ []

abbrev serve_entries : ℕ → Fill
serve_entries zero = serving 1 (written (1, codes "a.b"))
serve_entries (suc zero) = serving 4 (written (4, 192 ∷ 0 ∷ 2 ∷ 1 ∷ []))
serve_entries (suc (suc i)) =
    λ b n. record { reply = returns Code.requested_data_not_available; buffer = b; size = n }

-- An address is read with the bytes that a longer name has left behind it.
abbrev mixed : List (ℕ × Bytes)
mixed = (1, codes "a.b.c") ∷ (4, 9 ∷ 9 ∷ []) ∷ []

abbrev serve_mixed : ℕ → Fill
serve_mixed zero = serving 1 (codes "a.b.c" ++ 0 ∷ [])
serve_mixed (suc zero) = serving 4 (9 ∷ 9 ∷ [])
serve_mixed (suc (suc i)) = serve_entries (suc (suc i))

left_behind :
    bind (read_alternative_names 3 serve_mixed) (λ n. ok n.ip) ≡ ok ((9 ∷ 9 ∷ codes "b.c") ∷ [])
unfolding read_alternative_names check_status c_value append_name names_of
left_behind = refl
