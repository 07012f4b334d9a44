-- ===== src/Crypto/Crl.antt =====
-- gnutls/crypto.py, `X509CRL` and the accessors that it shares with the other classes. A list is its
-- `_c_object`, a number.
use python3_gnutls.Prelude.{ℕ, Bool, none, Str, Bytes, ℤ, if◌then◌else◌}
use python3_gnutls.Errors.{certificate_revoked_error, format, new, Result, ok, err, bind}
use python3_gnutls.Text.{Unicode}
use python3_gnutls.Status.{Reply, check_status}
use python3_gnutls.Buffer.{Fill}
use python3_gnutls.Crypto.Name.{X509Name}
use python3_gnutls.Crypto.Certificate.{read_name, read_blob, truth}

-- The functions of libgnutls that read a revocation list; `check_revocation` takes the certificate
-- first.
pub record CrlLibrary : Type 0 where
  pub get_crt_count : ℕ → Reply
  pub get_version : ℕ → Reply
  pub get_issuer_dn : ℕ → Fill
  pub check_certificate : ℕ → ℕ → Reply
  pub export_to : ℕ → ℕ → Fill

module _ (lib : CrlLibrary) where
  unfoldable pub count : ℕ → Result ℤ
  count crl = check_status none (lib.get_crt_count crl)

  unfoldable pub version : ℕ → Result ℤ
  version crl = check_status none (lib.get_version crl)

  unfoldable pub issuer : Unicode → ℕ → Result X509Name
  unfolding read_name
  issuer u crl = read_name u (lib.get_issuer_dn crl)

  unfoldable pub is_revoked : ℕ → ℕ → Result Bool
  is_revoked crl cert = bind (check_status none (lib.check_certificate cert crl)) λ r. ok (truth r)

  -- `check_revocation`
  unfoldable pub check_revocation : Str → ℕ → ℕ → Result (Unit {0})
  check_revocation cert_name cert crl = bind (is_revoked crl cert) λ revoked.
      if revoked
      then err (new certificate_revoked_error (format "%s was revoked" cert_name))
      else ok tt

  unfoldable pub export : ℕ → ℕ → Result Bytes
  unfolding read_blob
  export crl fmt = read_blob (lib.export_to crl fmt)
