-- ===== src/Crypto/Signing/Agreement.antt =====
-- A pair of keys agrees about what it signs and encrypts.
use python3_gnutls.Prelude.{
  Bytes, length, take, pos, ◌≤ℤ◌, ℕ, ◌%◌, ◌^◌, ◌<◌, ◌≡◌, refl, ap, ◌∙◌, none, [], ◌∷◌, arith,
}
use python3_gnutls.Errors.{ok, bind}
use python3_gnutls.Status.{Reply}
use python3_gnutls.Status.Laws.{check_status_ok}
use python3_gnutls.Crypto.Datum.{Datum, make_datum, contents, get_string_and_free, output, Gives}
use python3_gnutls.Crypto.Signing.{
  SigningLibrary, sign_data, decrypt_data, verify_data2, encrypt_data,
}

take_all : (b : Bytes) → take (length b) b ≡ b
take_all [] = refl
take_all (x ∷ b) = ap (λ l. x ∷ l) (take_all b)

-- A datum that a text of less than 4 GB makes has that text.
pub contents-make_datum : (b : Bytes) → length b < 2 ^ 32 → contents (make_datum b) ≡ b
unfolding make_datum
contents-make_datum [] h = refl
contents-make_datum (b ∷ bs) h =
    let same : length (b ∷ bs) % 2 ^ 32 ≡ length (b ∷ bs) = omega arith in
    ap (λ n. take n (b ∷ bs)) same ∙ take_all (b ∷ bs)

output-Gives : (b : Bytes) (o : Reply × Datum) → Gives b o → output o ≡ ok b
unfolding output get_string_and_free
output-Gives b (reply, d) (accepted, holds) =
    ap (λ m. bind m (λ _. ok (contents d))) (check_status_ok none reply accepted) ∙ ap ok holds

-- What the library does for a pair of keys and the bytes `plain`, by what the data contain: the public
-- key seals them, and the private key opens what was sealed; the private key signs them, and the public
-- key accepts the signature.
pub record Agrees (lib : SigningLibrary) (private public hash sign flags : ℕ) (plain : Bytes)
    : Type 0 where
  pub sealed : Bytes
  pub signature : Bytes
  pub seals : (d : Datum) → contents d ≡ plain → Gives sealed (lib.encrypt_data_with public flags d)
  pub opens :
      (d : Datum) → contents d ≡ sealed → Gives plain (lib.decrypt_data_with private flags d)
  pub signs :
      (d : Datum) → contents d ≡ plain → Gives signature (lib.sign_data_with private hash flags d)
  pub accepts :
      (d s : Datum)
      → contents d ≡ plain
      → contents s ≡ signature
      → pos 0 ≤ℤ (lib.verify_data_with public sign flags d s).retcode
  pub fits : (length sealed < 2 ^ 32) × (length signature < 2 ^ 32)

module _ (lib : SigningLibrary) (private public hash sign flags : ℕ) where
  -- Where the library seals and signs a text of less than 4 GB with a pair of keys that belong together,
  -- the text comes back whole, zero bytes included, and its signature is accepted.
  pub decrypt_data-encrypt_data :
      (plain : Bytes)
      → Agrees lib private public hash sign flags plain
      → length plain < 2 ^ 32
      → (bind (encrypt_data lib public flags plain) (decrypt_data lib private flags) ≡ ok plain)
        × (bind (sign_data lib private hash flags plain) (verify_data2 lib public sign flags plain)
            ≡ ok tt)
  unfolding encrypt_data decrypt_data sign_data verify_data2
  decrypt_data-encrypt_data plain a small =
      let d = make_datum plain in
      let holds = contents-make_datum plain small in
      let sealed = make_datum a.sealed in
      let signed = make_datum a.signature in
      let encrypted =
        output-Gives a.sealed (lib.encrypt_data_with public flags d) (a.seals d holds) in
      let decrypted =
        output-Gives plain (lib.decrypt_data_with private flags sealed)
          (a.opens sealed (contents-make_datum a.sealed a.fits.0)) in
      let sent =
        output-Gives a.signature (lib.sign_data_with private hash flags d) (a.signs d holds) in
      let verified =
        check_status_ok none (lib.verify_data_with public sign flags d signed)
          (a.accepts d signed holds (contents-make_datum a.signature a.fits.1)) in
      (
        ap (λ m. bind m (decrypt_data lib private flags)) encrypted ∙ decrypted,
        ap (λ m. bind m (verify_data2 lib public sign flags plain)) sent
            ∙ ap (λ m. bind m (λ _. ok tt)) verified,
      )
