-- ===== src/Connection/Credentials/Built.antt =====
-- What `X509Credentials.__init__` builds.
use python3_gnutls.Prelude.{
  ℕ, ◌≡◌, refl, ◌∙◌, ap, append-nil, Option, none, some, List, [], ◌∷◌, ◌++◌,
}
use python3_gnutls.Errors.{Result, ok, err, value_error, new, text}
use python3_gnutls.Exec.{Exec, ◌>>◌, Ends, Ensures, Ensures-bind, modify}
use python3_gnutls.Text.{Unicode}
use python3_gnutls.Status.{Reply, check_status}
use python3_gnutls.Crypto.Name.{X509Name}
use python3_gnutls.Crypto.AltNames.{AlternativeNames}
use python3_gnutls.Connection.ServerNames
use python3_gnutls.Connection.ServerNames.{Identity, Identities}
use python3_gnutls.Connection.Credentials.{
  Call, set_x509_key, set_retrieve_function, set_x509_trust, Credentials, allocated, log_call,
  issue, accept, set_crl_list, add_trusted, set_key_pair, on_names, add_own, init_credentials,
}
use python3_gnutls.Connection.Credentials.Synced.{
  trusted_in, limits_in, trusted_in-append, limits_in-append, default_limits, IsSynced,
  trusted_after_trust, limits_after_trust,
}

-- The library has been told of no trusted certificate and of no limits.
record IsFresh (c : Credentials) : Type 0 where
  trust : trusted_in c.native ≡ []
  limits : limits_in default_limits c.native ≡ default_limits

-- The attributes hold the arguments, and the C counterpart agrees.
pub record IsBuilt (cert key : Option ℕ) (trusted : List ℕ) (c : Credentials) : Type 0 where
  pub synced : IsSynced c
  pub cert_eq : c.cert ≡ cert
  pub key_eq : c.key ≡ key
  pub trusted_eq : c.trusted ≡ trusted

IsFresh-start : (c : Credentials) → c.native ≡ [] → IsFresh c
unfolding trusted_in limits_in
IsFresh-start c e = record { trust = ap trusted_in e; limits = ap (limits_in default_limits) e }

IsFresh-key :
    (cert key : ℕ) (c : Credentials) → IsFresh c → IsFresh (log_call (set_x509_key cert key) c)
unfolding trusted_in limits_in
IsFresh-key cert key c h = record {
  trust = trusted_in-append c.native (set_x509_key cert key ∷ []) ∙ (append-nil _ ∙ h.trust);
  limits = limits_in-append default_limits c.native (set_x509_key cert key ∷ []) ∙ h.limits;
}

IsFresh-retrieve : (c : Credentials) → IsFresh c → IsFresh (log_call set_retrieve_function c)
unfolding trusted_in limits_in
IsFresh-retrieve c h = record {
  trust = trusted_in-append c.native (set_retrieve_function ∷ []) ∙ (append-nil _ ∙ h.trust);
  limits = limits_in-append default_limits c.native (set_retrieve_function ∷ []) ∙ h.limits;
}

module _ (answer : List Call → Call → Reply) where
  key_pair-IsFresh :
      (cert key : Option ℕ) → Ensures (λ c. c.native ≡ []) (set_key_pair answer cert key) IsFresh
  unfolding set_key_pair
  key_pair-IsFresh (some cert) (some key) = record {
    at = λ s h.
        elim (check_status none (answer s.native (set_x509_key cert key)))
          as (λ r. Ends IsFresh (accept (set_x509_key cert key) r s)) [
            | ok _ ↦ IsFresh-key cert key s (IsFresh-start s h)
            | err _ ↦ tt
          ];
  }
  key_pair-IsFresh none none = record { at = λ s h. IsFresh-start s h }
  key_pair-IsFresh (some cert) none = record { at = λ s h. tt }
  key_pair-IsFresh none (some key) = record { at = λ s h. tt }

  retrieve-IsFresh : Ensures IsFresh (issue set_retrieve_function) IsFresh
  retrieve-IsFresh = record { at = λ s h. IsFresh-retrieve s h }

  trusted-IsBuilt :
      (cert key : Option ℕ) (ts : List ℕ)
      → Ensures (IsBuilt cert key []) (add_trusted answer ts) (IsBuilt cert key ts)
  unfolding add_trusted
  trusted-IsBuilt cert key [] = record { at = λ s h. h }
  trusted-IsBuilt cert key (t ∷ ts) = record {
    at = λ s h.
        elim (check_status none (answer s.native (set_x509_trust (t ∷ ts))))
          as (λ r. Ends (IsBuilt cert key (t ∷ ts)) (
            (accept (set_x509_trust (t ∷ ts)) r
                >> modify (λ c'. record c' { trusted = c'.trusted ++ t ∷ ts }))
              s)) [
                | ok _ ↦ record {
                  synced = record {
                    trust =
                        trusted_after_trust s.native (t ∷ ts)
                        ∙ ap (λ l. l ++ t ∷ ts) h.synced.trust;
                    limits = limits_after_trust s.native default_limits (t ∷ ts) ∙ h.synced.limits;
                  };
                  cert_eq = h.cert_eq;
                  key_eq = h.key_eq;
                  trusted_eq = ap (λ l. l ++ t ∷ ts) h.trusted_eq;
                }
                | err _ ↦ tt
              ];
  }

  names-IsBuilt :
      (cert key : Option ℕ) (ts : List ℕ) (m : Exec Identities (Unit {0}))
      → Ensures (IsBuilt cert key ts) (on_names answer m) (IsBuilt cert key ts)
  names-IsBuilt cert key ts m = record {
    at = λ s h.
        elim (m s.server_name_identities).0
          as (λ r.
            Ends (IsBuilt cert key ts)
              (r, record s { server_name_identities = (m s.server_name_identities).1 })) [
                | ok _ ↦ record {
                  synced = record { trust = h.synced.trust; limits = h.synced.limits };
                  cert_eq = h.cert_eq;
                  key_eq = h.key_eq;
                  trusted_eq = h.trusted_eq;
                }
                | err _ ↦ tt
              ];
  }

  names_cleared :
      (cert key : Option ℕ) (ts : List ℕ)
      → Ensures
          (IsBuilt cert key ts)
          (modify (λ c. record c { server_name_identities = [] }))
          (IsBuilt cert key ts)
  names_cleared cert key ts = record {
    at = λ s h. record {
      synced = record { trust = h.synced.trust; limits = h.synced.limits };
      cert_eq = h.cert_eq;
      key_eq = h.key_eq;
      trusted_eq = h.trusted_eq;
    };
  }

  crls-IsBuilt :
      (cert key : Option ℕ) (ts crls : List ℕ)
      → Ensures (IsBuilt cert key ts) (set_crl_list crls) (IsBuilt cert key ts)
  unfolding set_crl_list
  crls-IsBuilt cert key ts crls = record {
    at = λ s h. record {
      synced = record { trust = h.synced.trust; limits = h.synced.limits };
      cert_eq = h.cert_eq;
      key_eq = h.key_eq;
      trusted_eq = h.trusted_eq;
    };
  }

  module _ (u : Unicode) (names : ℕ → Result AlternativeNames) (subject : ℕ → Result X509Name) where
    own-IsBuilt :
        (cert key : Option ℕ) (ts : List ℕ)
        → Ensures
            (IsBuilt cert key ts)
            (add_own answer u names subject cert key)
            (IsBuilt cert key ts)
    unfolding add_own
    own-IsBuilt (some cert) (some key) ts =
        names-IsBuilt (some cert) (some key) ts
          (ServerNames.add u names subject (record { cert = cert; key = key }))
    own-IsBuilt (some cert) none ts = record { at = λ s h. h }
    own-IsBuilt none key ts = record { at = λ s h. h }

    built :
        (cert key : Option ℕ) (ts crls : List ℕ) (identities : List Identity)
        → Ensures
            (λ c. c.native ≡ [])
            (init_credentials answer u names subject cert key ts crls identities)
            (IsBuilt cert key ts)
    unfolding init_credentials
    built cert key ts crls identities =
        Ensures-bind (set_key_pair answer cert key) (λ _. issue set_retrieve_function >> fill)
          (key_pair-IsFresh cert key)
          λ _. Ensures-bind (issue set_retrieve_function) (λ _. fill) retrieve-IsFresh λ _. filled
      where
        assign : Exec Credentials (Unit {0})
        assign = modify (λ c. record c {
          max_depth = 5;
          max_bits = 8200;
          cert = cert;
          key = key;
          identities = identities;
          trusted = [];
        })

        fill_names : Exec Credentials (Unit {0})
        fill_names =
            on_names answer (ServerNames.init_identities u names subject identities)
            >> add_own answer u names subject cert key

        clear_names : Exec Credentials (Unit {0})
        clear_names = modify (λ c. record c { server_name_identities = [] }) >> fill_names

        fill_lists : Exec Credentials (Unit {0})
        fill_lists = add_trusted answer ts >> (set_crl_list crls >> clear_names)

        fill : Exec Credentials (Unit {0})
        fill = assign >> fill_lists

        assigned : Ensures IsFresh assign (IsBuilt cert key [])
        assigned = record {
          at = λ s h. record {
            synced = record { trust = h.trust; limits = h.limits };
            cert_eq = refl;
            key_eq = refl;
            trusted_eq = refl;
          };
        }

        named : Ensures (IsBuilt cert key ts) fill_names (IsBuilt cert key ts)
        named =
            Ensures-bind (on_names answer (ServerNames.init_identities u names subject identities))
              (λ _. add_own answer u names subject cert key)
              (names-IsBuilt cert key ts (ServerNames.init_identities u names subject identities))
              λ _. own-IsBuilt cert key ts

        cleared : Ensures (IsBuilt cert key ts) clear_names (IsBuilt cert key ts)
        cleared =
            Ensures-bind (modify (λ c. record c { server_name_identities = [] })) (λ _. fill_names)
              (names_cleared cert key ts) λ _. named

        listed : Ensures (IsBuilt cert key []) fill_lists (IsBuilt cert key ts)
        listed =
            Ensures-bind (add_trusted answer ts) (λ _. set_crl_list crls >> clear_names)
              (trusted-IsBuilt cert key ts)
              λ _.
                Ensures-bind (set_crl_list crls) (λ _. clear_names) (crls-IsBuilt cert key ts crls)
                  λ _. cleared

        filled : Ensures IsFresh fill (IsBuilt cert key ts)
        filled = Ensures-bind assign (λ _. fill_lists) assigned λ _. listed

-- Where the constructor returns, the certificate, the key and the trusted certificates are the
-- arguments, the C credentials trust exactly the latter, and both sides have the same limits.
pub init_credentials-IsBuilt :
    (answer : List Call → Call → Reply) (u : Unicode) (names : ℕ → Result AlternativeNames)
    (subject : ℕ → Result X509Name) (cert key : Option ℕ) (ts crls : List ℕ)
    (identities : List Identity)
    → Ends
        (IsBuilt cert key ts)
        (init_credentials answer u names subject cert key ts crls identities allocated)
init_credentials-IsBuilt answer u names subject cert key ts crls identities =
    (built answer u names subject cert key ts crls identities).at allocated refl

-- A certificate without a key, or a key without a certificate, raises `ValueError` before anything
-- is set.
pub init_credentials-half :
    (answer : List Call → Call → Reply) (u : Unicode) (names : ℕ → Result AlternativeNames)
    (subject : ℕ → Result X509Name) (k : ℕ) (ts crls : List ℕ) (identities : List Identity)
    → let e = new value_error (text "Specify neither or both the certificate and private key") in
      (init_credentials answer u names subject (some k) none ts crls identities allocated
        ≡ (err e, allocated))
      × (init_credentials answer u names subject none (some k) ts crls identities allocated
          ≡ (err e, allocated))
unfolding init_credentials
init_credentials-half answer u names subject k ts crls identities = (refl, refl)
