-- ===== src/Constants/Named.antt =====
-- gnutls/constants.py: the numbers under the names that the package exports.
pub mod Resolved
use python3_gnutls.Prelude.{Str, ℤ, true, false, Option, none, some, List, [], ◌∷◌, ◌++◌}
use python3_gnutls.Errors.{value_error, attribute_error, text, new, Result, ok, err, bind}
use python3_gnutls.Text.{codes, str_eq}
use python3_gnutls.Dict.{lookup}
use python3_gnutls.Constants.Entry.{Constant, number, words}
use python3_gnutls.Constants.Table.{constants}

-- A `GNUTLSConstant`
pub record NamedConstant : Type 0 where
  pub value : ℤ
  pub name : Str

-- `__name_map__`
abbrev pub name_map : List (Str × Str)
name_map =
    (codes "PROTO_TLS1_2", codes "TLS1_2")
    ∷ (codes "PROTO_TLS1_1", codes "TLS1_1")
    ∷ (codes "PROTO_TLS1_0", codes "TLS1_0")
    ∷ (codes "PROTO_SSL3", codes "SSL3")
    ∷ (codes "CRED_CERTIFICATE", codes "CRD_CERTIFICATE")
    ∷ (codes "CRED_ANON", codes "CRD_ANON")
    ∷ []

-- `__all__`
abbrev pub exported : List Str
exported =
    codes "CRED_CERTIFICATE"
    ∷ codes "CRED_ANON"
    ∷ codes "X509_FMT_DER"
    ∷ codes "X509_FMT_PEM"
    ∷ codes "CERT_REQUEST"
    ∷ codes "CERT_REQUIRE"
    ∷ codes "SHUT_RDWR"
    ∷ codes "SHUT_WR"
    ∷ []

abbrev or_itself : Option Str → Str → Str
or_itself none name = name
or_itself (some mapped) name = mapped

-- `'GNUTLS_' + __name_map__.get(name, name)`
unfoldable pub gnutls_name : Str → Str
unfolding lookup
gnutls_name name = codes "GNUTLS_" ++ or_itself (lookup name name_map) name

-- `int.__new__(cls, getattr(constants, name))`. The texts among the constants are no numbers.
unfoldable pub read_number : Str → List Constant → Result ℤ
unfolding str_eq
read_number name [] = err (new attribute_error (text "module has no such attribute"))
read_number name (number n v ∷ cs) = elim (str_eq name (codes n)) [
  | true ↦ ok v
  | false ↦ read_number name cs
]
read_number name (words n s ∷ cs) = elim (str_eq name (codes n)) [
  | true ↦ err (new value_error (text "invalid literal for int()"))
  | false ↦ read_number name cs
]

-- `GNUTLSConstant.__new__`
unfoldable pub make_constant : Str → Result NamedConstant
unfolding gnutls_name read_number
make_constant name =
    bind (read_number (gnutls_name name) constants) λ v. ok (record { value = v; name = name })
