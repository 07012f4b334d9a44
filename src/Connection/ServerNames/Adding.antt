-- ===== src/Connection/ServerNames/Adding.antt =====
-- What `add` makes an identity known under.
use python3_gnutls.Prelude.{
  ◌≡◌, refl, ◌∙◌, ap, sym, true, Option, none, some, List, [], ◌∷◌, ◌++◌, map, Str, Bytes, All,
  arith, if◌then◌else◌, ℕ,
}
use python3_gnutls.Errors.{Result, ok}
use python3_gnutls.Exec.{Exec, for_each, for_each-cons, bind-eq, lift, ◌>>=◌, ◌>>◌}
use python3_gnutls.Text.{Unicode, is_ascii, lower, decode}
use python3_gnutls.Dict.{lookup, insert, lookup-insert}
use python3_gnutls.Crypto.Name.{X509Name, member}
use python3_gnutls.Crypto.AltNames.{AlternativeNames}
use python3_gnutls.Connection.ServerNames.{
  Identity, Identities, common_name, add_dns, add_ip, add_common_name, add,
}

decode_ascii : (u : Unicode) (b : Bytes) → is_ascii b ≡ true → decode u b ≡ ok b
unfolding decode
decode_ascii u b h = rw h

insert_keys : List Str → Identity → Identities → Identities
insert_keys [] i d = d
insert_keys (k ∷ ks) i d = insert_keys ks i (insert k i d)

lookup-insert_keys :
    (k : Str) (ks : List Str) (i : Identity) (d : Identities)
    → lookup k (insert_keys ks i d) ≡ (if member k ks then some i else lookup k d)
unfolding insert_keys member
lookup-insert_keys k [] i d = refl
lookup-insert_keys k (j ∷ ks) i d =
    ground (arith, lookup-insert_keys k ks i (insert j i d), lookup-insert j k i d)

insert_keys-append :
    (ks ls : List Str) (i : Identity) (d : Identities)
    → insert_keys (ks ++ ls) i d ≡ insert_keys ls i (insert_keys ks i d)
unfolding insert_keys
insert_keys-append [] ls i d = refl
insert_keys-append (k ∷ ks) ls i d = insert_keys-append ks ls i (insert k i d)

abbrev pub AllAscii : List Bytes → Type 0
AllAscii = All (λ b. is_ascii b ≡ true)

for_each-add_dns :
    (u : Unicode) (i : Identity) (names : List Bytes) (d : Identities)
    → AllAscii names
    → for_each names (add_dns u i) d ≡ (ok tt, insert_keys (map (lower u) names) i d)
unfolding insert_keys add_dns
for_each-add_dns u i [] d h = refl
for_each-add_dns u i (n ∷ names) d h =
    for_each-cons n names (add_dns u i) (rw (decode_ascii u n h.0))
    ∙ for_each-add_dns u i names (insert (lower u n) i d) h.1

for_each-add_ip :
    (u : Unicode) (i : Identity) (ips : List Bytes) (d : Identities)
    → AllAscii ips
    → for_each ips (add_ip u i) d ≡ (ok tt, insert_keys ips i d)
unfolding insert_keys add_ip
for_each-add_ip u i [] d h = refl
for_each-add_ip u i (n ∷ ips) d h =
    for_each-cons n ips (add_ip u i) (rw (decode_ascii u n h.0))
    ∙ for_each-add_ip u i ips (insert n i d) h.1

abbrev common_names : Unicode → Option Str → List Str
common_names u none = []
common_names u (some cn) = lower u cn ∷ []

-- The names that a certificate stands for, as keys of the dictionary.
abbrev pub keys : Unicode → AlternativeNames → X509Name → List Str
keys u names x = map (lower u) names.dns ++ (names.ip ++ common_names u (common_name x))

add_common_name_lem :
    (u : Unicode) (i : Identity) (cn : Option Str) (d : Identities)
    → add_common_name u i cn d ≡ (ok tt, insert_keys (common_names u cn) i d)
unfolding add_common_name insert_keys
add_common_name_lem u i none d = refl
add_common_name_lem u i (some cn) d = refl

module _ (u : Unicode) (alternative_names : ℕ → Result AlternativeNames)
    (subject : ℕ → Result X509Name) (i : Identity) (names : AlternativeNames) (x : X509Name)
    (has_names : alternative_names i.cert ≡ ok names) (has_subject : subject i.cert ≡ ok x)
    (ascii_dns : AllAscii names.dns) (ascii_ip : AllAscii names.ip) where
  add-insert_keys :
      (d : Identities)
      → add u alternative_names subject i d ≡ (ok tt, insert_keys (keys u names x) i d)
  unfolding add
  add-insert_keys d = rw has_names (
      bind-eq (for_each names.dns (add_dns u i)) (λ _. rest)
        (for_each-add_dns u i names.dns d ascii_dns)
      ∙ (bind-eq (for_each names.ip (add_ip u i)) (λ _. last)
            (for_each-add_ip u i names.ip d1 ascii_ip)
          ∙ (bind-eq (lift (subject i.cert)) (λ name. add_common_name u i (common_name name))
                (ap (λ r. (r, d2)) has_subject)
              ∙ (add_common_name_lem u i (common_name x) d2 ∙ ap (λ e. (ok tt, e)) (sym joined)))))
    where
      d1 : Identities
      d1 = insert_keys (map (lower u) names.dns) i d

      d2 : Identities
      d2 = insert_keys names.ip i d1

      last : Exec Identities (Unit {0})
      last = lift (subject i.cert) >>= λ name. add_common_name u i (common_name name)

      rest : Exec Identities (Unit {0})
      rest = for_each names.ip (add_ip u i) >> last

      joined : insert_keys (keys u names x) i d ≡ insert_keys (common_names u (common_name x)) i d2
      joined =
          insert_keys-append (map (lower u) names.dns) (names.ip ++ common_names u (common_name x))
            i d
          ∙ insert_keys-append names.ip (common_names u (common_name x)) i d1

  -- Where the certificate can be read and its names are ASCII, `add` succeeds; after it the lower-case
  -- DNS names, the IP names and the lower-case common name lead to the identity, also where they led
  -- to another one, and every other key leads where it did.
  pub add_lem :
      (d : Identities) (k : Str)
      → ((add u alternative_names subject i d).0 ≡ ok tt)
        × (lookup k (add u alternative_names subject i d).1
            ≡ (if member k (keys u names x) then some i else lookup k d))
  add_lem d k = rw (add-insert_keys d) (refl, lookup-insert_keys k (keys u names x) i d)
