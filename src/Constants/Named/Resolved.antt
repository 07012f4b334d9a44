-- ===== src/Constants/Named/Resolved.antt =====
-- The exported constants exist.
use python3_gnutls.Prelude.{Str, All, ℤ, pos, ◌≤ℤ◌, ◌≡◌, refl, arith}
use python3_gnutls.Errors.{ok}
use python3_gnutls.Text.{codes}
use python3_gnutls.Constants.Named.{NamedConstant, exported, make_constant}

-- A name that stands for a number, and is shown by itself
abbrev pub Resolves : Str → Type 0
Resolves name =
    (c : NamedConstant) × (make_constant name ≡ ok c) × (c.name ≡ name) × (pos 0 ≤ℤ c.value)

resolve :
    (name : Str) (v : ℤ)
    → pos 0 ≤ℤ v
    → make_constant name ≡ ok (record { value = v; name = name })
    → Resolves name
resolve name v h e = (record { value = v; name = name }, e, refl, h)

-- Every name that the package exports stands for a number of the table that is not negative, so the
-- import raises nothing, and the constant is shown by the exported name.
pub exported-Resolves : All Resolves exported
unfolding make_constant
exported-Resolves = (
  resolve (codes "CRED_CERTIFICATE") (pos 1) (omega arith) refl,
  (
    resolve (codes "CRED_ANON") (pos 2) (omega arith) refl,
    (
      resolve (codes "X509_FMT_DER") (pos 0) (omega arith) refl,
      (
        resolve (codes "X509_FMT_PEM") (pos 1) (omega arith) refl,
        (
          resolve (codes "CERT_REQUEST") (pos 1) (omega arith) refl,
          (
            resolve (codes "CERT_REQUIRE") (pos 2) (omega arith) refl,
            (
              resolve (codes "SHUT_RDWR") (pos 0) (omega arith) refl,
              (resolve (codes "SHUT_WR") (pos 1) (omega arith) refl, tt),
            ),
          ),
        ),
      ),
    ),
  ),
)
