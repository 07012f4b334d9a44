-- ===== src/Connection/Credentials/Synced.antt =====
-- The Python attributes of the credentials and the state of their C counterpart agree.
use python3_gnutls.Prelude.{
  ℕ, ◌≡◌, refl, ◌∙◌, ap, sym, none, List, [], ◌∷◌, ◌++◌, append_assoc, append-nil,
}
use python3_gnutls.Errors.{ok, err}
use python3_gnutls.Exec.{◌>>◌, modify}
use python3_gnutls.Status.{Reply, check_status}
use python3_gnutls.Connection.Credentials.{
  Call, set_x509_trust, set_verify_limits, Credentials, accept, set_max_verify_length,
  set_max_verify_bits, add_trusted, allocated,
}

-- The certificates that the library was told to trust.
unfoldable pub trusted_in : List Call → List ℕ
trusted_in [] = []
trusted_in (set_x509_trust ts ∷ cs) = ts ++ trusted_in cs
trusted_in (_ ∷ cs) = trusted_in cs

-- The limits, bits and depth, that the library was told last.
unfoldable pub limits_in : ℕ × ℕ → List Call → ℕ × ℕ
limits_in p [] = p
limits_in p (set_verify_limits bits depth ∷ cs) = limits_in (bits, depth) cs
limits_in p (_ ∷ cs) = limits_in p cs

abbrev pub default_limits : ℕ × ℕ
default_limits = (8200, 5)

-- What the library trusts is what `trusted` says, and its limits, where it was told any, are those
-- of `max_verify_bits` and `max_verify_length`.
pub record IsSynced (c : Credentials) : Type 0 where
  pub trust : trusted_in c.native ≡ c.trusted
  pub limits : limits_in default_limits c.native ≡ (c.max_bits, c.max_depth)

pub trusted_in-append : (cs ds : List Call) → trusted_in (cs ++ ds) ≡ trusted_in cs ++ trusted_in ds
unfolding trusted_in
trusted_in-append [] ds = refl
trusted_in-append (set_x509_trust ts ∷ cs) ds =
    ap (λ l. ts ++ l) (trusted_in-append cs ds)
    ∙ sym (append_assoc ts (trusted_in cs) (trusted_in ds))
trusted_in-append (_ ∷ cs) ds = trusted_in-append cs ds

pub limits_in-append :
    (p : ℕ × ℕ) (cs ds : List Call) → limits_in p (cs ++ ds) ≡ limits_in (limits_in p cs) ds
unfolding limits_in
limits_in-append p [] ds = refl
limits_in-append p (set_verify_limits bits depth ∷ cs) ds = limits_in-append (bits, depth) cs ds
limits_in-append p (_ ∷ cs) ds = limits_in-append p cs ds

module _ (cs : List Call) where
  trusted_after_limits :
      (bits depth : ℕ) → trusted_in (cs ++ set_verify_limits bits depth ∷ []) ≡ trusted_in cs
  trusted_after_limits bits depth =
      trusted_in-append cs (set_verify_limits bits depth ∷ [])
      ∙ unfold trusted_in in append-nil (trusted_in cs)

  limits_after_limits :
      (p : ℕ × ℕ) (bits depth : ℕ)
      → limits_in p (cs ++ set_verify_limits bits depth ∷ []) ≡ (bits, depth)
  unfolding limits_in
  limits_after_limits p bits depth = limits_in-append p cs (set_verify_limits bits depth ∷ [])

  pub trusted_after_trust :
      (ts : List ℕ) → trusted_in (cs ++ set_x509_trust ts ∷ []) ≡ trusted_in cs ++ ts
  trusted_after_trust ts =
      trusted_in-append cs (set_x509_trust ts ∷ [])
      ∙ unfold trusted_in in ap (λ l. trusted_in cs ++ l) (append-nil ts)

  pub limits_after_trust :
      (p : ℕ × ℕ) (ts : List ℕ) → limits_in p (cs ++ set_x509_trust ts ∷ []) ≡ limits_in p cs
  unfolding limits_in
  limits_after_trust p ts = limits_in-append p cs (set_x509_trust ts ∷ [])

-- Setting either limit keeps the two in step, and the other limit.
pub set_limits-IsSynced :
    (n : ℕ) (c : Credentials)
    → IsSynced c
    → IsSynced (set_max_verify_length n c).1
      × IsSynced (set_max_verify_bits n c).1
      × ((set_max_verify_length n c).1.max_bits ≡ c.max_bits)
      × ((set_max_verify_bits n c).1.max_depth ≡ c.max_depth)
unfolding set_max_verify_length set_max_verify_bits
set_limits-IsSynced n c h = (
  record {
    trust = trusted_after_limits c.native c.max_bits n ∙ h.trust;
    limits = limits_after_limits c.native default_limits c.max_bits n;
  },
  record {
    trust = trusted_after_limits c.native n c.max_depth ∙ h.trust;
    limits = limits_after_limits c.native default_limits n c.max_depth;
  },
  refl,
  refl,
)

-- Whatever the library answers, `add_trusted` keeps the two in step: refused certificates are on
-- neither side.
pub add_trusted-IsSynced :
    (answer : List Call → Call → Reply) (ts : List ℕ) (c : Credentials)
    → IsSynced c
    → IsSynced (add_trusted answer ts c).1
unfolding add_trusted
add_trusted-IsSynced answer [] c h = h
add_trusted-IsSynced answer (t ∷ ts) c h =
    elim (check_status none (answer c.native (set_x509_trust (t ∷ ts))))
      as (λ r.
        IsSynced
          ((accept (set_x509_trust (t ∷ ts)) r
              >> modify (λ c'. record c' { trusted = c'.trusted ++ t ∷ ts }))
            c).1) [
              | ok _ ↦ record {
                trust = trusted_after_trust c.native (t ∷ ts) ∙ ap (λ l. l ++ t ∷ ts) h.trust;
                limits = limits_after_trust c.native default_limits (t ∷ ts) ∙ h.limits;
              }
              | err _ ↦ h
            ]

-- Credentials from their allocation on, whose limits were set and whose trust was extended any number
-- of times, with whatever answers of the library.
pub data Configured : Credentials → Type 0 where
  fresh : Configured allocated
  longer : (n : ℕ) {c : Credentials} → Configured c → Configured (set_max_verify_length n c).1
  larger : (n : ℕ) {c : Credentials} → Configured c → Configured (set_max_verify_bits n c).1
  trusting :
      (answer : List Call → Call → Reply) (ts : List ℕ) {c : Credentials}
      → Configured c
      → Configured (add_trusted answer ts c).1

allocated-IsSynced : IsSynced allocated
unfolding trusted_in limits_in
allocated-IsSynced = record { trust = refl; limits = refl }

-- In whatever order the limits are set and trusted certificates are added, and whatever the library
-- answers, it trusts what `trusted` says, and its limits are those of the attributes.
pub Configured-IsSynced : (c : Credentials) → Configured c → IsSynced c
Configured-IsSynced _ fresh = allocated-IsSynced
Configured-IsSynced _ (longer n {c} h) = (set_limits-IsSynced n c (Configured-IsSynced c h)).0
Configured-IsSynced _ (larger n {c} h) = (set_limits-IsSynced n c (Configured-IsSynced c h)).1
Configured-IsSynced _ (trusting answer ts {c} h) =
    add_trusted-IsSynced answer ts c (Configured-IsSynced c h)
