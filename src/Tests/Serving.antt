-- ===== src/Tests/Serving.antt =====
-- gnutls/connection.py on a few identities and credentials.
use python3_gnutls.Prelude.{
  if◌then◌else◌, Str, pos, ◌≤ℤ◌, ◌≡◌, refl, ◌↔◌, true, none, some, List, [], ◌∷◌, arith,
}
use python3_gnutls.Errors.{ok}
use python3_gnutls.Exec.{for_each}
use python3_gnutls.Status.{Reply, returns, check_status}
use python3_gnutls.Text.{codes, str_eq, Unicode, is_ascii, lower, decode}
use python3_gnutls.Dict.{lookup}
use python3_gnutls.Crypto.Name.{member, X509Name}
use python3_gnutls.Crypto.Certificate.{CertificateLibrary, activation_time, expiration_time}
use python3_gnutls.Crypto.AltNames.{AlternativeNames}
use python3_gnutls.Crypto.Crl.{CrlLibrary, is_revoked, check_revocation}
use python3_gnutls.Connection.ServerNames.{Identity, Identities, covers, get, add}
use python3_gnutls.Connection.ServerNames.Wildcard.{Covers, covers_iff}
use python3_gnutls.Connection.ServerNames.Select.{Selects, get_iff}
use python3_gnutls.Connection.ServerNames.Adding.{keys, add_lem}
use python3_gnutls.Connection.Credentials.{
  Call, allocated, passed, set_max_verify_length, add_trusted, init_credentials, is_after,
  is_before, check_crls, check_certificate, verify_callback,
}
use python3_gnutls.Connection.Credentials.Synced.{
  IsSynced, longer, trusting, fresh, Configured-IsSynced,
}
use python3_gnutls.Connection.Credentials.Returns.{built, init_credentials_lem}
use python3_gnutls.Connection.Credentials.Verify.{NotRevoked, IsActive, verify_callback_iff}

abbrev wildcard_name : Str
wildcard_name = codes "*.b.c"

abbrev host : Str
host = codes "a.b.c"

covers_iff_example : (covers wildcard_name host ≡ true) ↔ Covers wildcard_name host
covers_iff_example = covers_iff wildcard_name host

abbrev no_unicode : Unicode
no_unicode = record { lower_high = λ c. c ∷ []; decode_high = λ b. none }

abbrev first_identity : Identity
first_identity = record { cert = 1; key = 2 }

abbrev known : Identities
known = (codes "x.y", record { cert = 3; key = 4 }) ∷ (wildcard_name, first_identity) ∷ []

host_decodes : decode no_unicode host ≡ ok host
unfolding decode is_ascii
host_decodes = refl

get_iff_example :
    (get no_unicode host known ≡ ok (some first_identity))
    ↔ Selects (lower no_unicode host) known (some first_identity)
get_iff_example = get_iff no_unicode host host known (some first_identity) host_decodes

abbrev two_names : AlternativeNames
two_names = record {
  dns = codes "A.b" ∷ [];
  email = [];
  uri = [];
  ip = codes "9.9" ∷ [];
  other = [];
  dn = [];
}

abbrev bob : X509Name
bob = record { dname = codes "CN=b"; attributes = (codes "CN", some (codes "b")) ∷ [] }

dns_ascii : is_ascii (codes "A.b") ≡ true
unfolding is_ascii
dns_ascii = refl

ip_ascii : is_ascii (codes "9.9") ≡ true
unfolding is_ascii
ip_ascii = refl

add_example :
    ((add no_unicode (λ c. ok two_names) (λ c. ok bob) first_identity known).0 ≡ ok tt)
    × (lookup
          (codes "9.9")
          (add no_unicode (λ c. ok two_names) (λ c. ok bob) first_identity known).1
        ≡ (if member (codes "9.9") (keys no_unicode two_names bob)
            then some first_identity
            else lookup (codes "9.9") known))
add_example =
    add_lem no_unicode (λ c. ok two_names) (λ c. ok bob) first_identity two_names bob refl refl
      (dns_ascii, tt) (ip_ascii, tt) known (codes "9.9")

abbrev accepting : List Call → Call → Reply
accepting calls c = returns (pos 0)

Configured-IsSynced_example :
    IsSynced (set_max_verify_length 3 (add_trusted accepting (1 ∷ 2 ∷ []) allocated).1).1
Configured-IsSynced_example =
    Configured-IsSynced (set_max_verify_length 3 (add_trusted accepting (1 ∷ 2 ∷ []) allocated).1).1
      (longer 3 (trusting accepting (1 ∷ 2 ∷ []) fresh))

all_accepted : (calls : List Call) (c : Call) → pos 0 ≤ℤ (accepting calls c).retcode
all_accepted calls c = omega arith

all_added :
    (i : Identity) (d : Identities)
    → (e : Identities) × (add no_unicode (λ c. ok two_names) (λ c. ok bob) i d ≡ (ok tt, e))
unfolding add decode is_ascii lookup str_eq
all_added i d = ((add no_unicode (λ c. ok two_names) (λ c. ok bob) i d).1, refl)

init_credentials_example :
    (d : Identities) × (for_each
        (first_identity ∷ first_identity ∷ [])
        (add no_unicode (λ c. ok two_names) (λ c. ok bob))
        []
      ≡ (ok tt, d))
    × (init_credentials accepting no_unicode
          (λ c. ok two_names)
          (λ c. ok bob)
          (some 1)
          (some 2)
          (5 ∷ [])
          (6 ∷ [])
          (first_identity ∷ [])
          allocated
        ≡ (ok tt, built (some first_identity) (5 ∷ []) (6 ∷ []) (first_identity ∷ []) d))
    × IsSynced (built (some first_identity) (5 ∷ []) (6 ∷ []) (first_identity ∷ []) d)
init_credentials_example =
    init_credentials_lem accepting all_accepted no_unicode (λ c. ok two_names) (λ c. ok bob)
      all_added (some first_identity) (5 ∷ []) (6 ∷ []) (first_identity ∷ [])

abbrev one_certificate : CertificateLibrary
one_certificate = record {
  get_dn = λ c b n. record { reply = returns (pos 0); buffer = b; size = n };
  get_issuer_dn = λ c b n. record { reply = returns (pos 0); buffer = b; size = n };
  get_serial = λ c b n. record { reply = returns (pos 0); buffer = b; size = n };
  get_subject_alt_name = λ c i b n. record { reply = returns (pos 0); buffer = b; size = n };
  get_activation_time = λ c. returns (pos 1000);
  get_expiration_time = λ c. returns (pos 2000);
  get_version = λ c. returns (pos 3);
  check_issuer = λ c i. returns (pos 1);
  check_hostname = λ c h. returns (pos 0);
  export_to = λ c f b n. record { reply = returns (pos 0); buffer = b; size = n };
}

abbrev no_revocation : CrlLibrary
no_revocation = record {
  get_crt_count = λ crl. returns (pos 0);
  get_version = λ crl. returns (pos 2);
  get_issuer_dn = λ crl b n. record { reply = returns (pos 0); buffer = b; size = n };
  check_certificate = λ cert crl. returns (pos 0);
  export_to = λ crl f b n. record { reply = returns (pos 0); buffer = b; size = n };
}

verify_callback_iff_example :
    (verify_callback one_certificate no_revocation 1500000000 7 passed (9 ∷ []) ≡ ok tt) ↔ (
      (passed ≡ passed)
      × IsActive one_certificate no_revocation 1500000000 7
      × NotRevoked one_certificate no_revocation 7 (9 ∷ []))
verify_callback_iff_example =
    verify_callback_iff one_certificate no_revocation 1500000000 7 passed (9 ∷ [])

accepted_peer : verify_callback one_certificate no_revocation 1500000000 7 passed (9 ∷ []) ≡ ok tt
unfolding verify_callback check_certificate check_crls check_revocation is_revoked activation_time
    expiration_time check_status is_after is_before
accepted_peer = refl
