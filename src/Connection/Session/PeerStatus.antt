-- ===== src/Connection/Session/PeerStatus.antt =====
-- How `verify_peer` judges the verification status.
use python3_gnutls.Prelude.{
  ℕ, ◌≡◌, refl, ◌↔◌, Bool, true, false, Option, none, String, pos, ◌≤ℤ◌, arith, ◌⊎◌, if◌then◌else◌,
}
use python3_gnutls.Errors.{
  ErrorClass, Exception, Result, ok, err, bind-eq-ok, certificate_error,
  certificate_authority_error,
}
use python3_gnutls.Status.{Reply, check_status}
use python3_gnutls.Status.Laws.{check_status-eq-ok, check_status_ok}
use python3_gnutls.Connection.Session.{
  has_flag, cert_invalid, cert_revoked, cert_signer_not_found, cert_signer_not_ca,
  cert_insecure_algorithm, reject, judge, verify_peer,
}

-- None of the five flags that `verify_peer` looks at is set.
pub record IsClean (status : ℕ) : Type 0 where
  pub signer_found : has_flag status cert_signer_not_found ≡ false
  pub signer_is_ca : has_flag status cert_signer_not_ca ≡ false
  pub not_invalid : has_flag status cert_invalid ≡ false
  pub secure : has_flag status cert_insecure_algorithm ≡ false
  pub not_revoked : has_flag status cert_revoked ≡ false

reject-ne-ok :
    (peer : Result (Option ℕ)) (context : ℕ) (c : ErrorClass) (m : String)
    → ¬ (reject peer context c m ≡ ok tt)
unfolding reject
reject-ne-ok (ok cert) context c m h = cc
reject-ne-ok (err e) context c m h = cc

passed_by :
    (test : Bool) (m k : Result (Unit {0}))
    → ¬ (m ≡ ok tt)
    → (if test then m else k) ≡ ok tt
    → (test ≡ false) × (k ≡ ok tt)
passed_by true m k no_return h = absurd (no_return h)
passed_by false m k no_return h = (refl, h)

judge-IsClean :
    (peer : Result (Option ℕ)) (context status : ℕ)
    → judge peer context status ≡ ok tt
    → IsClean status
unfolding judge
judge-IsClean peer context status h =
    let (f1, h1) = passed_by _ _ _ (reject-ne-ok peer context _ _) h in
    let (f2, h2) = passed_by _ _ _ (reject-ne-ok peer context _ _) h1 in
    let (f3, h3) = passed_by _ _ _ (reject-ne-ok peer context _ _) h2 in
    let (f4, h4) = passed_by _ _ _ (reject-ne-ok peer context _ _) h3 in
    let (f5, _) = passed_by _ _ _ (reject-ne-ok peer context _ _) h4 in
    record { signer_found = f1; signer_is_ca = f2; not_invalid = f3; secure = f4; not_revoked = f5 }

IsClean-judge :
    (peer : Result (Option ℕ)) (context status : ℕ)
    → IsClean status
    → judge peer context status ≡ ok tt
unfolding judge
IsClean-judge peer context status c =
    rw (c.signer_found, c.signer_is_ca, c.not_invalid, c.secure, c.not_revoked)

-- The peer passes exactly where the call succeeds and none of the five flags is set.
pub verify_peer_iff :
    (reply : Reply) (status : ℕ) (peer : Result (Option ℕ)) (context : ℕ)
    → (verify_peer reply status peer context ≡ ok tt) ↔ ((pos 0 ≤ℤ reply.retcode) × IsClean status)
unfolding verify_peer
verify_peer_iff reply status peer context = (
  λ h.
      let (r, checked, judged) = bind-eq-ok (check_status none reply) _ h in
      (((check_status-eq-ok none reply r).0 checked).0, judge-IsClean peer context status judged),
  λ h. rw (check_status_ok none reply h.0) (IsClean-judge peer context status h.1),
)

-- Where the library sets GNUTLS_CERT_INVALID beside every other flag, a peer that is refused for a
-- weak algorithm or a revocation is refused as invalid: over a readable certificate the exception is
-- a `CertificateAuthorityError` or a plain `CertificateError`.
pub judge_class :
    (cert : Option ℕ) (context status : ℕ) (e : Exception)
    → (has_flag status cert_insecure_algorithm ≡ true → has_flag status cert_invalid ≡ true)
    → (has_flag status cert_revoked ≡ true → has_flag status cert_invalid ≡ true)
    → judge (ok cert) context status ≡ err e
    → (e.class ≡ certificate_authority_error) ⊎ (e.class ≡ certificate_error)
unfolding judge reject
judge_class cert context status e insecure revoked h = ground arith
