-- ===== src/Crypto/Signing.antt =====
-- gnutls/crypto.py: what `PrivateKey` and `PublicKey` sign, verify, encrypt and decrypt. A key is its
-- `_c_object`, a number.
pub mod Agreement
use python3_gnutls.Prelude.{Bytes, ℕ, none}
use python3_gnutls.Errors.{Result, ok, bind}
use python3_gnutls.Status.{Reply, check_status}
use python3_gnutls.Crypto.Datum.{Datum, make_datum, output}

-- The functions of libgnutls. The key comes first, then a hash or signature algorithm where there is
-- one, and the flags.
pub record SigningLibrary : Type 0 where
  pub sign_data_with : ℕ → ℕ → ℕ → Datum → Reply × Datum
  pub sign_hash_with : ℕ → ℕ → ℕ → Datum → Reply × Datum
  pub decrypt_data_with : ℕ → ℕ → Datum → Reply × Datum
  pub verify_data_with : ℕ → ℕ → ℕ → Datum → Datum → Reply
  pub verify_hash_with : ℕ → ℕ → ℕ → Datum → Datum → Reply
  pub encrypt_data_with : ℕ → ℕ → Datum → Reply × Datum

module _ (lib : SigningLibrary) where
  -- The methods of `PrivateKey`
  unfoldable pub sign_data : ℕ → ℕ → ℕ → Bytes → Result Bytes
  unfolding output make_datum
  sign_data key hash_algo flags buf =
      output (lib.sign_data_with key hash_algo flags (make_datum buf))

  unfoldable pub sign_hash : ℕ → ℕ → ℕ → Bytes → Result Bytes
  unfolding output make_datum
  sign_hash key hash_algo flags buf =
      output (lib.sign_hash_with key hash_algo flags (make_datum buf))

  unfoldable pub decrypt_data : ℕ → ℕ → Bytes → Result Bytes
  unfolding output make_datum
  decrypt_data key flags ciphertext =
      output (lib.decrypt_data_with key flags (make_datum ciphertext))

  -- The methods of `PublicKey`
  unfoldable pub verify_data2 : ℕ → ℕ → ℕ → Bytes → Bytes → Result (Unit {0})
  unfolding make_datum
  verify_data2 key sign_algo flags buf signature =
      bind
        (check_status none
          (lib.verify_data_with key sign_algo flags (make_datum buf) (make_datum signature)))
        (λ _. ok tt)

  unfoldable pub verify_hash2 : ℕ → ℕ → ℕ → Bytes → Bytes → Result (Unit {0})
  unfolding make_datum
  verify_hash2 key sign_algo flags hashbuf signature =
      bind
        (check_status none
          (lib.verify_hash_with key sign_algo flags (make_datum hashbuf) (make_datum signature)))
        (λ _. ok tt)

  unfoldable pub encrypt_data : ℕ → ℕ → Bytes → Result Bytes
  unfolding output make_datum
  encrypt_data key flags plaintext = output (lib.encrypt_data_with key flags (make_datum plaintext))
