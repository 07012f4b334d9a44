-- ===== src/Crypto/Aead.antt =====
-- gnutls/crypto.py, `AEADCipher` and the tag of `Cipher`. A cipher is its `_c_object`, a number.
pub mod RoundTrip
use python3_gnutls.Prelude.{Bytes, length, ℕ, zero, suc, ◌+◌, none}
use python3_gnutls.Errors.{assertion_error, text, new, Result, ok, err, bind}
use python3_gnutls.Status.{check_status}
use python3_gnutls.Buffer.{Fill, create_string_buffer, c_value, fetch}

-- The functions of libgnutls that a cipher calls. Of `encrypt_with` and `decrypt_with` the nonce, the
-- authenticated data, the tag's size and the text come after the cipher.
pub record CipherLibrary : Type 0 where
  pub encrypt_with : ℕ → Bytes → Bytes → ℕ → Bytes → Fill
  pub decrypt_with : ℕ → Bytes → Bytes → ℕ → Bytes → Fill
  pub tag_of : ℕ → Fill

module _ (lib : CipherLibrary) where
  -- `AEADCipher.encrypt`, which ends in `ct.value`
  unfoldable pub encrypt : ℕ → Bytes → Bytes → ℕ → Bytes → Result Bytes
  encrypt cipher nonce auth tag_size plain_text =
      bind
        (fetch (tag_size + length plain_text + 16)
          (lib.encrypt_with cipher nonce auth tag_size plain_text))
        (λ f. ok (c_value f.buffer))

  -- `AEADCipher.decrypt`, which ends in `pt.value`
  unfoldable pub decrypt : ℕ → Bytes → Bytes → ℕ → Bytes → Result Bytes
  decrypt cipher nonce auth tag_size cipher_text =
      bind
        (fetch (tag_size + length cipher_text + 16)
          (lib.decrypt_with cipher nonce auth tag_size cipher_text))
        (λ f. ok (c_value f.buffer))

  -- `Cipher.cipher_tag`
  unfoldable pub cipher_tag : ℕ → ℕ → Result Bytes
  cipher_tag cipher zero = err (new assertion_error (text ""))
  cipher_tag cipher (suc n) =
      let f = lib.tag_of cipher (create_string_buffer (suc n)) (suc n) in
      bind (check_status none f.reply) λ _. ok (c_value f.buffer)
