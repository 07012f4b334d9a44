-- ===== src/Connection/Credentials/Verify.antt =====
-- Which certificates `verify_callback` accepts.
use python3_gnutls.Prelude.{
  ℕ, ◌*◌, ◌≤◌, ◌≡◌, ◌∙◌, ap, refl, ◌↔◌, false, List, [], ◌∷◌, Str, ℤ, pos, negsuc, All, arith, ◌≤ℤ◌,
}
use python3_gnutls.Errors.{ok, bind-eq-ok, guard-eq-ok}
use python3_gnutls.Text.{codes}
use python3_gnutls.Status.Laws.{check_status_nonneg}
use python3_gnutls.Crypto.Certificate.{CertificateLibrary, activation_time, expiration_time}
use python3_gnutls.Crypto.Crl.{CrlLibrary, is_revoked, check_revocation}
use python3_gnutls.Connection.Credentials.{
  Preverify, raised, passed, micros, is_after, is_before, check_crls, check_certificate,
  verify_callback,
}

module _ (lib : CertificateLibrary) (crl_lib : CrlLibrary) where
  -- No list of the credentials has the certificate, and every list could be read.
  abbrev pub NotRevoked : ℕ → List ℕ → Type 0
  NotRevoked cert = All (λ crl. is_revoked crl_lib crl cert ≡ ok false)

  -- The certificate is active at `now`, with its times known.
  pub record IsActive (now cert : ℕ) : Type 0 where
    pub start : ℕ
    pub end : ℕ
    pub start_eq : activation_time lib cert ≡ ok (pos start)
    pub end_eq : expiration_time lib cert ≡ ok (pos end)
    pub started : start * micros ≤ now
    pub not_ended : now ≤ end * micros

  check_revocation_iff :
      (name : Str) (cert crl : ℕ)
      → (check_revocation crl_lib name cert crl ≡ ok tt) ↔ (is_revoked crl_lib crl cert ≡ ok false)
  unfolding check_revocation
  check_revocation_iff name cert crl = ground arith

  check_crls_iff :
      (name : Str) (cert : ℕ) (crls : List ℕ)
      → (check_crls lib crl_lib name cert crls ≡ ok tt) ↔ NotRevoked cert crls
  unfolding check_crls
  check_crls_iff name cert [] = (λ h. tt, λ h. refl)
  check_crls_iff name cert (crl ∷ crls) =
      ground (arith, check_revocation_iff name cert crl, check_crls_iff name cert crls)

  activation_nonneg : (cert : ℕ) (v : ℤ) → activation_time lib cert ≡ ok v → pos 0 ≤ℤ v
  unfolding activation_time
  activation_nonneg cert v h = check_status_nonneg _ _ v h

  not_after : (t now : ℕ) → t * micros ≤ now → is_after (pos t) now ≡ false
  unfolding is_after
  not_after t now h = ground arith

  not_before : (t now : ℕ) → now ≤ t * micros → is_before (pos t) now ≡ false
  unfolding is_before
  not_before t now h = ground arith

  check_certificate-accepts :
      (now cert : ℕ) (name : Str) (crls : List ℕ)
      → IsActive now cert
      → NotRevoked cert crls
      → check_certificate lib crl_lib now cert name crls ≡ ok tt
  unfolding check_certificate
  check_certificate-accepts now cert name crls a h =
      rw (a.start_eq, not_after a.start now a.started, a.end_eq, not_before a.end now a.not_ended)
        ((check_crls_iff name cert crls).1 h)

  started_of :
      (v : ℤ) (now : ℕ)
      → pos 0 ≤ℤ v
      → is_after v now ≡ false
      → (t : ℕ) × (v ≡ pos t) × (t * micros ≤ now)
  unfolding is_after
  started_of (pos t) now h e = (t, refl, ground arith)
  started_of (negsuc t) now h e = absurd (omega arith)

  not_ended_of :
      (v : ℤ) (now : ℕ) → is_before v now ≡ false → (t : ℕ) × (v ≡ pos t) × (now ≤ t * micros)
  unfolding is_before
  not_ended_of (pos t) now e = (t, refl, ground arith)
  not_ended_of (negsuc t) now e = cc

  -- The certificate as the checks of `check_certificate` find it.
  checked_parts :
      (now cert : ℕ) (name : Str) (crls : List ℕ)
      → check_certificate lib crl_lib now cert name crls ≡ ok tt
      → (a : ℤ) × (e : ℤ) × (activation_time lib cert ≡ ok a)
        × (is_after a now ≡ false)
        × (expiration_time lib cert ≡ ok e)
        × (is_before e now ≡ false)
        × (check_crls lib crl_lib name cert crls ≡ ok tt)
  unfolding check_certificate
  checked_parts now cert name crls h =
      let (a, ea, h1) = bind-eq-ok (activation_time lib cert) _ h in
      let (na, h2) = guard-eq-ok (is_after a now) _ _ h1 in
      let (e, ee, h3) = bind-eq-ok (expiration_time lib cert) _ h2 in
      let (ne, h4) = guard-eq-ok (is_before e now) _ _ h3 in (a, e, ea, na, ee, ne, h4)

  active :
      (now cert : ℕ) (name : Str) (crls : List ℕ)
      → check_certificate lib crl_lib now cert name crls ≡ ok tt
      → IsActive now cert × NotRevoked cert crls
  active now cert name crls h =
      let (a, e, ea, na, ee, ne, rest) = checked_parts now cert name crls h in
      let (start, sa, started) = started_of a now (activation_nonneg cert a ea) na in
      let (end, se, not_ended) = not_ended_of e now ne in
      (
        record {
          start = start;
          end = end;
          start_eq = ea ∙ ap ok sa;
          end_eq = ee ∙ ap ok se;
          started = started;
          not_ended = not_ended;
        },
        (check_crls_iff name cert crls).0 rest,
      )

  -- The peer is accepted exactly where the verification before raised nothing, the current time is
  -- at or after the activation and at or before the expiration, both of which can be read, and every
  -- revocation list says that the certificate is not revoked.
  pub verify_callback_iff :
      (now cert : ℕ) (p : Preverify) (crls : List ℕ)
      → (verify_callback lib crl_lib now cert p crls ≡ ok tt)
        ↔ ((p ≡ passed) × IsActive now cert × NotRevoked cert crls)
  unfolding verify_callback
  verify_callback_iff now cert (raised e) crls = (λ h. cc, λ h. cc)
  verify_callback_iff now cert passed crls = (
    λ h. let (a, r) = active now cert (codes "peer certificate") crls h in (refl, a, r),
    λ h. check_certificate-accepts now cert (codes "peer certificate") crls h.1 h.2,
  )
