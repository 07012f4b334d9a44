-- ===== src/Crypto/Aead/RoundTrip.antt =====
-- What survives an encryption with `AEADCipher`.
use python3_gnutls.Prelude.{Bytes, length, ℕ, ◌+◌, ◌≡◌, ap, ◌∙◌, ◌↔◌, arith}
use python3_gnutls.Errors.{ok, bind}
use python3_gnutls.Text.Laws.{Lacks}
use python3_gnutls.Buffer.{c_value, Delivers}
use python3_gnutls.Buffer.Padding.{fetch-c_value, c_value_iff}
use python3_gnutls.Crypto.Aead.{CipherLibrary, encrypt, decrypt}

module _ (lib : CipherLibrary) (seal : Bytes → Bytes → ℕ → Bytes → Bytes) where
  -- The library puts `seal` of a text into the buffer, and the text for what it sealed.
  pub record Seals (cipher : ℕ) : Type 0 where
    pub sealed :
        (nonce auth : Bytes) (tag_size : ℕ) (plain_text : Bytes)
        → let c = seal nonce auth tag_size plain_text in
          Delivers c (length c) (lib.encrypt_with cipher nonce auth tag_size plain_text)
    pub opened :
        (nonce auth : Bytes) (tag_size : ℕ) (plain_text : Bytes)
        → Delivers plain_text
            (length plain_text)
            (lib.decrypt_with cipher nonce auth tag_size (seal nonce auth tag_size plain_text))

  -- Of what the library writes into the buffer for a text, `encrypt` returns the bytes up to the first
  -- zero byte: all of them exactly where there is none.
  pub encrypt_iff :
      (cipher : ℕ) (nonce auth : Bytes) (tag_size : ℕ) (plain_text : Bytes)
      → Seals cipher
      → (encrypt lib cipher nonce auth tag_size plain_text
          ≡ ok (c_value (seal nonce auth tag_size plain_text)))
        × ((encrypt lib cipher nonce auth tag_size plain_text
              ≡ ok (seal nonce auth tag_size plain_text))
            ↔ Lacks 0 (seal nonce auth tag_size plain_text))
  unfolding encrypt
  encrypt_iff cipher nonce auth tag_size plain_text s =
      let c = seal nonce auth tag_size plain_text in
      let read =
        fetch-c_value (tag_size + length plain_text + 16)
          (lib.encrypt_with cipher nonce auth tag_size plain_text) c (length c)
          (s.sealed nonce auth tag_size plain_text) in
      (
        read,
        (λ whole. (c_value_iff c).0 (ground arith), λ free. read ∙ ap ok ((c_value_iff c).1 free)),
      )

  -- Over a cipher of the library that opens what it sealed, a text is decrypted to itself where neither
  -- it nor its sealed form has a zero byte.
  pub decrypt-encrypt :
      (cipher : ℕ) (nonce auth : Bytes) (tag_size : ℕ) (plain_text : Bytes)
      → Seals cipher
      → Lacks 0 plain_text
      → Lacks 0 (seal nonce auth tag_size plain_text)
      → bind
          (encrypt lib cipher nonce auth tag_size plain_text)
          (decrypt lib cipher nonce auth tag_size)
        ≡ ok plain_text
  unfolding decrypt
  decrypt-encrypt cipher nonce auth tag_size plain_text s zero_free sealed_free =
      let c = seal nonce auth tag_size plain_text in
      let sent = (encrypt_iff cipher nonce auth tag_size plain_text s).1.1 sealed_free in
      let read =
        fetch-c_value (tag_size + length c + 16) (lib.decrypt_with cipher nonce auth tag_size c)
          plain_text (length plain_text) (s.opened nonce auth tag_size plain_text) in
      let whole = (c_value_iff plain_text).1 zero_free in rw (sent, read, whole)
