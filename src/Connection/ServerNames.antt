-- ===== src/Connection/ServerNames.antt =====
-- gnutls/connection.py, `_ServerNameIdentities`: which identity a server shows for the name that a
-- client asks for. An identity is a certificate and a key, by their `_c_object`s.
pub mod Wildcard
pub mod Select
pub mod Adding
use python3_gnutls.Prelude.{
  ℕ, ◌-◌, Bool, true, false, not, ◌&&◌, Option, none, some, List, [], ◌∷◌, Str, Bytes, length, take,
  drop, if◌then◌else◌,
}
use python3_gnutls.Errors.{Result, ok, err, bind}
use python3_gnutls.Exec.{Exec, pure, lift, modify, ◌>>=◌, ◌>>◌, for_each}
use python3_gnutls.Text.{codes, starts_with, ends_with, has_char, Unicode, lower, decode}
use python3_gnutls.Dict.{Dict, lookup, insert}
use python3_gnutls.Crypto.Name.{X509Name, flatten_value}
use python3_gnutls.Crypto.AltNames.{AlternativeNames}

pub record Identity : Type 0 where
  pub cert : ℕ
  pub key : ℕ

abbrev pub Identities : Type 0
Identities = Dict Identity

abbrev pub dot : ℕ
dot = b'.'

abbrev pub star_dot : Str
star_dot = b'*' ∷ dot ∷ []

-- Whether the loop of `get` returns at the key `name`.
unfoldable pub covers : Str → Str → Bool
covers name server_name =
    let suffix = drop 1 name in
    starts_with name star_dot
    && ends_with server_name suffix
    && not (has_char dot (take (length server_name - length suffix) server_name))

-- `for name in (n for n in self if n.startswith("*.")): …`
unfoldable pub first_cover : Str → Identities → Option Identity
first_cover server_name [] = none
first_cover server_name ((name, identity) ∷ ids) =
    if covers name server_name then some identity else first_cover server_name ids

abbrev or_wildcard : Option Identity → Option Identity → Option Identity
or_wildcard (some i) w = some i
or_wildcard none w = w

-- `get` on the name in lower case
unfoldable pub find : Str → Identities → Option Identity
find server_name ids = or_wildcard (lookup server_name ids) (first_cover server_name ids)

-- `subject.CN`, which every name has
unfoldable pub common_name : X509Name → Option Str
common_name x = flatten_value (lookup (codes "CN") x.attributes)

module _ (u : Unicode) where
  -- `_ServerNameIdentities.get`; the default is `None`
  unfoldable pub get : Bytes → Identities → Result (Option Identity)
  unfolding find
  get server_name ids = bind (decode u server_name) λ name. ok (find (lower u name) ids)

  add_dns : Identity → Bytes → Exec Identities (Unit {0})
  add_dns identity name = do n ← lift (decode u name); modify (insert (lower u n) identity)

  add_ip : Identity → Bytes → Exec Identities (Unit {0})
  add_ip identity ip = do n ← lift (decode u ip); modify (insert n identity)

  add_common_name : Identity → Option Str → Exec Identities (Unit {0})
  add_common_name identity none = pure tt
  add_common_name identity (some cn) = modify (insert (lower u cn) identity)

  -- The properties of a certificate that `add` reads, by its `_c_object`.
  module _ (alternative_names : ℕ → Result AlternativeNames) (subject : ℕ → Result X509Name) where
    -- `_ServerNameIdentities.add`
    unfoldable pub add : Identity → Exec Identities (Unit {0})
    unfolding add_dns add_ip add_common_name common_name
    add identity = do
      names ← lift (alternative_names identity.cert)
      for_each names.dns (add_dns identity)
      for_each names.ip (add_ip identity)
      name ← lift (subject identity.cert)
      add_common_name identity (common_name name)

    -- `_ServerNameIdentities.__init__`
    unfoldable pub init_identities : List Identity → Exec Identities (Unit {0})
    unfolding add
    init_identities identities = for_each identities add
