-- ===== src/Tests/Signed.antt =====
-- Signed and encrypted bytes, over small libraries.
use python3_gnutls.Prelude.{
  ◌==◌, if◌then◌else◌, Bytes, length, pos, negsuc, ◌≤ℤ◌, ℕ, ◌≡◌, refl, sym, ap, subst, ◌↔◌, some,
  [], ◌∷◌, ◌++◌, arith,
}
use python3_gnutls.Errors.{ok, bind}
use python3_gnutls.Exec.{◌>>=◌}
use python3_gnutls.Status.{returns}
use python3_gnutls.Text.{str_eq}
use python3_gnutls.Text.Laws.{str_eq_self, Lacks}
use python3_gnutls.Buffer.{c_value, Delivers}
use python3_gnutls.Crypto.Pkcs7.{Pkcs7Library, verify_direct, verify}
use python3_gnutls.Crypto.Pkcs7.Verification.{AllPass, verify_iff}
use python3_gnutls.Crypto.Aead.{CipherLibrary, encrypt, decrypt}
use python3_gnutls.Crypto.Aead.RoundTrip.{Seals, encrypt_iff, decrypt-encrypt}
use python3_gnutls.Crypto.Datum.{Datum, contents}
use python3_gnutls.Crypto.Signing.{
  SigningLibrary, sign_data, decrypt_data, verify_data2, encrypt_data,
}
use python3_gnutls.Crypto.Signing.Agreement.{Agrees, decrypt_data-encrypt_data}
use python3_gnutls.Crypto.Raw.{Two, RawLibrary, no_password, export_rsa_raw, rsa_public_key}
use python3_gnutls.Crypto.Raw.Public.{Remembers, export_rsa_raw-rsa_public_key}
use python3_gnutls.Tests.Library.{serving, serving-Delivers}

-- Two signatures, the second one bad
abbrev two_signatures : Pkcs7Library
two_signatures = record {
  signature_count = λ object. returns (pos 2);
  verify_with = λ object tl i buf flags. if i == 1 then returns (negsuc 88) else returns (pos 0);
  verify_direct_with = λ object cert i buf flags. returns (pos 0);
  signature_info = λ object i. (returns (pos 0), i);
}

verify_iff_example :
    ((verify two_signatures 3 4 (1 ∷ []) (negsuc 0) 0 ≡ ok tt)
      ↔ AllPass (λ i. two_signatures.verify_with 3 4 i (1 ∷ []) 0) 0 2)
    × ((verify_direct two_signatures 3 4 (1 ∷ []) (negsuc 0) 0 ≡ ok tt)
        ↔ AllPass (λ i. two_signatures.verify_direct_with 3 4 i (1 ∷ []) 0) 0 2)
verify_iff_example = verify_iff two_signatures 3 4 (1 ∷ []) 0 2 (refl, omega arith)

-- A cipher that writes the tag 7 behind the text
abbrev tagging : Bytes → Bytes → ℕ → Bytes → Bytes
tagging nonce auth tag_size plain_text = plain_text ++ 7 ∷ []

abbrev drop_last : Bytes → Bytes
drop_last [] = []
drop_last (b ∷ []) = []
drop_last (b ∷ c ∷ bs) = b ∷ drop_last (c ∷ bs)

abbrev tag_library : CipherLibrary
tag_library = record {
  encrypt_with =
      λ cipher nonce auth tag_size plain_text. serving 0 (tagging nonce auth tag_size plain_text);
  decrypt_with = λ cipher nonce auth tag_size cipher_text. serving 0 (drop_last cipher_text);
  tag_of = λ cipher. serving 0 (7 ∷ []);
}

drop_last-append : (bs : Bytes) → drop_last (bs ++ 7 ∷ []) ≡ bs
drop_last-append [] = refl
drop_last-append (b ∷ []) = refl
drop_last-append (b ∷ c ∷ bs) = ap (λ l. b ∷ l) (drop_last-append (c ∷ bs))

tagging-Seals : Seals tag_library tagging 5
tagging-Seals = record {
  sealed = λ nonce auth tag_size plain_text. serving-Delivers 0 (plain_text ++ 7 ∷ []);
  opened = λ nonce auth tag_size plain_text.
      subst (λ l. Delivers plain_text (length plain_text) (serving 0 l))
        (sym (drop_last-append plain_text)) (serving-Delivers 0 plain_text);
}

encrypt_iff_example :
    (encrypt tag_library 5 [] [] 1 (3 ∷ []) ≡ ok (c_value (3 ∷ 7 ∷ [])))
    × ((encrypt tag_library 5 [] [] 1 (3 ∷ []) ≡ ok (3 ∷ 7 ∷ [])) ↔ Lacks 0 (3 ∷ 7 ∷ []))
encrypt_iff_example = encrypt_iff tag_library tagging 5 [] [] 1 (3 ∷ []) tagging-Seals

decrypt-encrypt_example :
    bind (encrypt tag_library 5 [] [] 1 (3 ∷ [])) (decrypt tag_library 5 [] [] 1) ≡ ok (3 ∷ [])
decrypt-encrypt_example =
    decrypt-encrypt tag_library tagging 5 [] [] 1 (3 ∷ []) tagging-Seals (omega arith, tt)
      (omega arith, (omega arith, tt))

-- A text with a zero byte
abbrev zero_within : Bytes
zero_within = 3 ∷ 0 ∷ 5 ∷ []

abbrev whole : Bytes → Datum
whole bs = record { buffer = some bs; size = length bs }

-- One text is sealed as 8, and its signature is 9.
abbrev one_text : SigningLibrary
one_text = record {
  sign_data_with = λ key hash flags d. (returns (pos 0), whole (9 ∷ []));
  sign_hash_with = λ key hash flags d. (returns (pos 0), whole (9 ∷ []));
  decrypt_data_with = λ key flags d. (returns (pos 0), whole zero_within);
  verify_data_with = λ key sign flags d s.
      if str_eq (contents s) (9 ∷ []) then returns (pos 0) else returns (negsuc 88);
  verify_hash_with = λ key sign flags d s. returns (pos 0);
  encrypt_data_with = λ key flags d. (returns (pos 0), whole (8 ∷ []));
}

nine_accepted :
    (bs : Bytes)
    → bs ≡ 9 ∷ []
    → pos 0 ≤ℤ (if str_eq bs (9 ∷ []) then returns (pos 0) else returns (negsuc 88)).retcode
nine_accepted bs h = let same = str_eq_self (9 ∷ []) in ground arith

one_text-Agrees : Agrees one_text 1 2 6 4 0 zero_within
one_text-Agrees = record {
  sealed = 8 ∷ [];
  signature = 9 ∷ [];
  seals = λ d h. (omega arith, refl);
  opens = λ d h. (omega arith, refl);
  signs = λ d h. (omega arith, refl);
  accepts = λ d s h i. nine_accepted (contents s) i;
  fits = (omega arith, omega arith);
}

decrypt_data-encrypt_data_example :
    (bind (encrypt_data one_text 2 0 zero_within) (decrypt_data one_text 1 0) ≡ ok zero_within)
    × (bind (sign_data one_text 1 6 0 zero_within) (verify_data2 one_text 2 4 0 zero_within)
        ≡ ok tt)
decrypt_data-encrypt_data_example =
    decrypt_data-encrypt_data one_text 1 2 6 4 0 zero_within one_text-Agrees (omega arith)

-- A library with one public key; its private keys have the modulus 3 0 and the exponent 7.
abbrev one_key : RawLibrary Two
one_key = record {
  init_public = λ s. ((returns (pos 0), 5), s);
  import_rsa = λ j given s. (returns (pos 0), given);
  import_dsa = λ j given s. (returns (negsuc 49), s);
  export_rsa = λ j s. (returns (pos 0), s);
  private_rsa = λ j s. (returns (pos 0), (whole (3 ∷ 0 ∷ []), whole (7 ∷ [])));
  private_dsa = λ j s. (returns (negsuc 49), (whole [], whole [], whole [], whole []));
  import_url = λ j uri flags s. (returns (negsuc 49), s);
  import_tpm_url = λ j uri srk flags s. (returns (negsuc 49), s);
  pk_algorithm = λ j s. returns (pos 1);
}

one_key-Remembers : Remembers one_key
one_key-Remembers = record {
  makes = λ s. omega arith;
  imports = λ j m e s. omega arith;
  exports = λ j m e s. (omega arith, refl, refl);
}

export_rsa_raw-rsa_public_key_example :
    ((rsa_public_key one_key 2 [] no_password >>= export_rsa_raw one_key) (whole [], whole [])).0
    ≡ ok (3 ∷ 0 ∷ [], 7 ∷ [])
export_rsa_raw-rsa_public_key_example =
    export_rsa_raw-rsa_public_key one_key 2 no_password (3 ∷ 0 ∷ []) (7 ∷ []) (whole [], whole [])
      one_key-Remembers (omega arith) refl refl (omega arith) (omega arith)
