-- ===== src/Connection/Credentials/Returns.antt =====
-- Where nothing that `X509Credentials.__init__` calls fails, it returns.
use python3_gnutls.Connection.Credentials.{checked, set_key_pair, on_names, add_own}
use python3_gnutls.Connection.ServerNames
use python3_gnutls.Prelude.{
  ap, sym, append-nil, pos, ◌≤ℤ◌, ℕ, ◌≡◌, refl, subst, ◌∙◌, Option, none, some, List, [], ◌∷◌, ◌++◌,
}
use python3_gnutls.Errors.{Result, ok}
use python3_gnutls.Exec.{Exec, modify, ◌>>◌, for_each, bind-eq, for_each-cons, Ends}
use python3_gnutls.Text.{Unicode}
use python3_gnutls.Status.{Reply}
use python3_gnutls.Status.Laws.{check_status_ok}
use python3_gnutls.Crypto.Name.{X509Name}
use python3_gnutls.Crypto.AltNames.{AlternativeNames}
use python3_gnutls.Connection.Credentials.{
  Call, set_x509_key, set_retrieve_function, set_x509_trust, Credentials, allocated, log_call,
  issue, set_crl_list, add_trusted, init_credentials,
}
use python3_gnutls.Connection.Credentials.Synced.{IsSynced}
use python3_gnutls.Connection.Credentials.Built.{IsBuilt, init_credentials-IsBuilt}
use python3_gnutls.Connection.ServerNames.{Identity, Identities, add, init_identities}

abbrev pub cert_of : Option Identity → Option ℕ
cert_of none = none
cert_of (some i) = some i.cert

abbrev pub key_of : Option Identity → Option ℕ
key_of none = none
key_of (some i) = some i.key

abbrev pub own_list : Option Identity → List Identity
own_list none = []
own_list (some i) = i ∷ []

abbrev pub key_calls : Option Identity → List Call
key_calls none = []
key_calls (some i) = set_x509_key i.cert i.key ∷ []

abbrev pub trust_calls : List ℕ → List Call
trust_calls [] = []
trust_calls (t ∷ ts) = set_x509_trust (t ∷ ts) ∷ []

-- The object that the constructor leaves for these arguments, and what its C counterpart was told.
abbrev pub built : Option Identity → List ℕ → List ℕ → List Identity → Identities → Credentials
built own ts crls is d = record {
  native = key_calls own ++ set_retrieve_function ∷ trust_calls ts;
  max_depth = 5;
  max_bits = 8200;
  cert = cert_of own;
  key = key_of own;
  identities = is;
  trusted = ts;
  crl_list = crls;
  server_name_identities = d;
}

-- Before the trusted certificates are added
abbrev begun : Option Identity → List Identity → Credentials
begun own is = record allocated {
  native = key_calls own ++ set_retrieve_function ∷ [];
  cert = cert_of own;
  key = key_of own;
  identities = is;
}

module _ (answer : List Call → Call → Reply)
    (accepts : (calls : List Call) (c : Call) → pos 0 ≤ℤ (answer calls c).retcode) where
  checked_lem : (c : Call) (s : Credentials) → checked answer c s ≡ (ok tt, log_call c s)
  unfolding checked
  checked_lem c s = rw (check_status_ok none (answer s.native c) (accepts s.native c))

  set_key_pair_lem :
      (own : Option Identity)
      → set_key_pair answer (cert_of own) (key_of own) allocated
        ≡ (ok tt, record allocated { native = key_calls own })
  unfolding set_key_pair
  set_key_pair_lem none = refl
  set_key_pair_lem (some i) = checked_lem (set_x509_key i.cert i.key) allocated

  add_trusted_lem :
      (ts : List ℕ) (s : Credentials)
      → add_trusted answer ts s
        ≡ (ok tt, record s { native = s.native ++ trust_calls ts; trusted = s.trusted ++ ts })
  unfolding add_trusted
  add_trusted_lem [] s = λ i. (
    ok tt,
    record s { native = sym (append-nil s.native) i; trusted = sym (append-nil s.trusted) i },
  )
  add_trusted_lem (t ∷ ts) s =
      bind-eq (checked answer (set_x509_trust (t ∷ ts)))
        (λ _. modify (λ c. record c { trusted = c.trusted ++ t ∷ ts }))
        (checked_lem (set_x509_trust (t ∷ ts)) s)

  on_names_lem :
      (m : Exec Identities (Unit {0})) (s : Credentials) {d : Identities}
      → m s.server_name_identities ≡ (ok tt, d)
      → on_names answer m s ≡ (ok tt, record s { server_name_identities = d })
  on_names_lem m s e = ap (λ o. (o.0, record s { server_name_identities = o.1 })) e

  module _ (u : Unicode) (names : ℕ → Result AlternativeNames) (subject : ℕ → Result X509Name)
      (adds : (i : Identity) (d : Identities)
        → (e : Identities) × (ServerNames.add u names subject i d ≡ (ok tt, e))) where
    abbrev each : List Identity → Exec Identities (Unit {0})
    each is = for_each is (ServerNames.add u names subject)

    -- The first identities, and then the others
    each_lem :
        (is others : List Identity) (d : Identities)
        → (e : Identities) × (each is d ≡ (ok tt, e)) × (each (is ++ others) d ≡ each others e)
    each_lem [] others d = (d, refl, refl)
    each_lem (i ∷ is) others d =
        let (d', added) = adds i d in
        let (e, ran, all) = each_lem is others d' in
        (
          e,
          for_each-cons i is (ServerNames.add u names subject) added ∙ ran,
          for_each-cons i (is ++ others) (ServerNames.add u names subject) added ∙ all,
        )

    add_own_lem :
        (own : Option Identity) (s : Credentials)
        → (d : Identities) × (each (own_list own) s.server_name_identities ≡ (ok tt, d))
          × (add_own answer u names subject (cert_of own) (key_of own) s
              ≡ (ok tt, record s { server_name_identities = d }))
    unfolding add_own
    add_own_lem none s = (s.server_name_identities, refl, refl)
    add_own_lem (some i) s =
        let (d, added) = adds i s.server_name_identities in
        (
          d,
          for_each-cons i [] (ServerNames.add u names subject) added,
          on_names_lem (ServerNames.add u names subject i) s added,
        )

    names_lem :
        (own : Option Identity) (is : List Identity) (s : Credentials)
        → s.server_name_identities ≡ []
        → (d : Identities) × (each (is ++ own_list own) [] ≡ (ok tt, d))
          × ((on_names answer (ServerNames.init_identities u names subject is)
                  >> add_own answer u names subject (cert_of own) (key_of own))
                s
              ≡ (ok tt, record s { server_name_identities = d }))
    unfolding ServerNames.init_identities
    names_lem own is s start =
        let (e, ran, all) = each_lem is (own_list own) [] in
        let (d, last, owned) = add_own_lem own (record s { server_name_identities = e }) in
        (
          d,
          all ∙ last,
          bind-eq (on_names answer (ServerNames.init_identities u names subject is))
                (λ _. add_own answer u names subject (cert_of own) (key_of own))
                (on_names_lem (ServerNames.init_identities u names subject is) s
                  (ap (each is) start ∙ ran))
              ∙ owned,
        )

    -- The trusted certificates have been added.
    abbrev trusting : Option Identity → List ℕ → List Identity → Credentials
    trusting own ts is = record (begun own is) {
      native = (key_calls own ++ set_retrieve_function ∷ []) ++ trust_calls ts;
      trusted = ts;
    }

    trusting-built :
        (own : Option Identity) (ts crls : List ℕ) (is : List Identity) (d : Identities)
        → record (trusting own ts is) { crl_list = crls; server_name_identities = d }
          ≡ built own ts crls is d
    trusting-built none ts crls is d = refl
    trusting-built (some i) ts crls is d = refl

    init_credentials_ran :
        (own : Option Identity) (ts crls : List ℕ) (is : List Identity)
        → (d : Identities) × (each (is ++ own_list own) [] ≡ (ok tt, d))
          × (init_credentials answer u names subject (cert_of own) (key_of own) ts crls is allocated
              ≡ (ok tt, built own ts crls is d))
    unfolding init_credentials set_crl_list
    init_credentials_ran own ts crls is =
        let (d, all, named) =
          names_lem own is (record (trusting own ts is) { crl_list = crls }) refl in
        (
          d,
          all,
          bind-eq (set_key_pair answer (cert_of own) (key_of own))
                (λ _. issue set_retrieve_function >> fill) (set_key_pair_lem own)
              ∙ (bind-eq (add_trusted answer ts) (λ _. lists) (add_trusted_lem ts (begun own is))
                  ∙ (named ∙ ap (λ c. (ok tt, c)) (trusting-built own ts crls is d))),
        )
      where
        lists : Exec Credentials (Unit {0})
        lists =
            set_crl_list crls
            >> (modify (λ c. record c { server_name_identities = [] })
                >> (on_names answer (ServerNames.init_identities u names subject is)
                    >> add_own answer u names subject (cert_of own) (key_of own)))

        fill : Exec Credentials (Unit {0})
        fill =
            modify (λ c. record c {
              max_depth = 5;
              max_bits = 8200;
              cert = cert_of own;
              key = key_of own;
              identities = is;
              trusted = [];
            })
            >> (add_trusted answer ts >> lists)

    -- Where the library accepts every call and every identity can be added, the constructor returns
    -- for a certificate with its key, or for neither. Every attribute then holds its argument, the
    -- trusted certificates and the revocation lists whole and in order, and the names are those of the
    -- given identities and then of the own one. The C credentials were told the key where there is
    -- one, the function that chooses an identity, and the trusted certificates where there are any,
    -- and no more, so that both sides have the same trusted certificates and limits.
    pub init_credentials_lem :
        (own : Option Identity) (ts crls : List ℕ) (is : List Identity)
        → (d : Identities) × (for_each (is ++ own_list own) (ServerNames.add u names subject) []
            ≡ (ok tt, d))
          × (init_credentials answer u names subject (cert_of own) (key_of own) ts crls is allocated
              ≡ (ok tt, built own ts crls is d))
          × IsSynced (built own ts crls is d)
    init_credentials_lem own ts crls is =
        let (d, all, returned) = init_credentials_ran own ts crls is in
        let ended =
          init_credentials-IsBuilt answer u names subject (cert_of own) (key_of own) ts crls is in
        let all_built = subst (Ends (IsBuilt (cert_of own) (key_of own) ts)) returned ended in
        (d, all, returned, all_built.synced)
