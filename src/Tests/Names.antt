-- ===== src/Tests/Names.antt =====
-- `X509Name` on small texts.
use python3_gnutls.Prelude.{◌≡◌, refl, ◌⊎◌, true, none, some, [], ◌∷◌}
use python3_gnutls.Errors.{attribute_error, Exception, ok, err}
use python3_gnutls.Text.{codes, str_eq}
use python3_gnutls.Dict.{lookup}
use python3_gnutls.Crypto.Name.{ids, member, X509Name, set_name}
use python3_gnutls.Crypto.Name.ReadOnly.{set_name_lem}

abbrev bob : X509Name
bob = record { dname = codes "CN=b"; attributes = (codes "CN", some (codes "b")) ∷ [] }

cn_is_id : member (codes "CN") ids ≡ true
unfolding member str_eq
cn_is_id = refl

set_name_example :
    ((e : Exception) × (set_name (codes "CN") none bob ≡ err e) × (e.class ≡ attribute_error))
    × (((e : Exception) × (set_name (codes "x") none bob ≡ err e))
        ⊎ ((y : X509Name) × (set_name (codes "x") none bob ≡ ok y)
            × (lookup (codes "CN") y.attributes ≡ lookup (codes "CN") bob.attributes)
            × (y.dname ≡ bob.dname)))
set_name_example = set_name_lem (codes "x") (codes "CN") none bob cn_is_id
