-- ===== src/Crypto/Raw.antt =====
-- gnutls/crypto.py: public keys from addresses and raw parameters. A key is its `_c_object`, a number;
-- `S` is the state of the library's keys.
pub mod Public
use python3_gnutls.Prelude.{Bytes, ℤ, pos_part, ℕ, none, [], ◌∷◌}
use python3_gnutls.Errors.{argument_error, text, new, Result, ok, bind}
use python3_gnutls.Exec.{◌>>=◌, ◌>>◌, Exec, pure, raise, lift}
use python3_gnutls.Status.{Reply, check_status}
use python3_gnutls.Crypto.Datum.{Datum, make_datum, get_string_and_free}
use python3_gnutls.Crypto.Keys.{keytype_of}

-- What the library fills in for an RSA key and for a DSA key.
abbrev pub Two : Type 0
Two = Datum × Datum

abbrev pub Four : Type 0
Four = Datum × Datum × Datum × Datum

pub record RawLibrary (S : Type 0) : Type 0 where
  pub init_public : S → (Reply × ℕ) × S
  pub import_rsa : ℕ → Two → S → Reply × S
  pub import_dsa : ℕ → Four → S → Reply × S
  pub export_rsa : ℕ → S → Reply × Two
  pub private_rsa : ℕ → S → Reply × Two
  pub private_dsa : ℕ → S → Reply × Four
  pub import_url : ℕ → Bytes → ℕ → S → Reply × S
  pub import_tpm_url : ℕ → Bytes → Bytes → ℕ → S → Reply × S
  pub pk_algorithm : ℕ → S → Reply

-- A password that is absent, a `str` or `bytes`
pub data Password : Type 0 where
  no_password : Password
  words encoded : Bytes → Password

module _ {S : Type 0} (lib : RawLibrary S) where
  -- A checked call that changes the library's keys
  abbrev pub calls : (S → Reply × S) → Exec S ℤ
  calls f s = let (reply, s') = f s in (check_status none reply, s')

  -- `PublicKey()`
  unfoldable pub new_public : Exec S ℕ
  new_public s =
      let ((reply, key), s') = lib.init_public s in
      (bind (check_status none reply) (λ _. ok key), s')

  -- The first call of `PublicKey.import_uri`; ctypes takes no `str` for the password.
  unfoldable pub import_from : ℕ → Bytes → ℕ → Password → Exec S ℤ
  import_from key uri flags no_password = calls (lib.import_url key uri flags)
  import_from key uri flags (words []) = calls (lib.import_url key uri flags)
  import_from key uri flags (words (b ∷ bs)) = raise (new argument_error (text "wrong type"))
  import_from key uri flags (encoded []) = calls (lib.import_url key uri flags)
  import_from key uri flags (encoded (b ∷ bs)) = calls (lib.import_tpm_url key uri (b ∷ bs) flags)

  -- `PublicKey.import_uri`. What `upcast` returns has the same C object.
  unfoldable pub import_uri : Bytes → ℕ → Password → Exec S ℕ
  unfolding new_public import_from keytype_of
  import_uri uri flags srk_password = do
    key ← new_public
    _ ← import_from key uri flags srk_password
    algo ← λ s. (check_status none (lib.pk_algorithm key s), s)
    _ ← lift (keytype_of (pos_part algo))
    pure key

  -- `RSAPublicKey.import_rsa_raw` and `export_rsa_raw`
  unfoldable pub import_rsa_raw : Bytes × Bytes → Exec S ℕ
  unfolding new_public make_datum
  import_rsa_raw (m, e) = do
    key ← new_public
    _ ← calls (lib.import_rsa key (make_datum m, make_datum e))
    pure key

  abbrev pub two : Reply × Two → Result (Bytes × Bytes)
  two (reply, (m, e)) =
      bind (check_status none reply) λ _. ok ((get_string_and_free m).0, (get_string_and_free e).0)

  unfoldable pub export_rsa_raw : ℕ → Exec S (Bytes × Bytes)
  unfolding get_string_and_free
  export_rsa_raw key s = (two (lib.export_rsa key s), s)

  -- `RSAPrivateKey.get_public_key`, of a key with an address or none
  unfoldable pub rsa_public_key : ℕ → Bytes → Password → Exec S ℕ
  unfolding import_uri import_rsa_raw get_string_and_free
  rsa_public_key private (b ∷ uri) srk_password = import_uri (b ∷ uri) 0 srk_password
  rsa_public_key private [] srk_password =
      (λ s. (two (lib.private_rsa private s), s)) >>= import_rsa_raw

  -- `DSAPublicKey.import_dsa_raw`
  unfoldable pub import_dsa_raw : Bytes × Bytes × Bytes × Bytes → Exec S ℕ
  unfolding new_public make_datum
  import_dsa_raw (p, q, g, y) = do
    key ← new_public
    _ ← calls (lib.import_dsa key (make_datum p, make_datum q, make_datum g, make_datum y))
    pure key

  abbrev pub four : Reply × Four → Result (Bytes × Bytes × Bytes × Bytes)
  four (reply, (p, q, g, y)) = bind (check_status none reply) λ _. ok (
    (get_string_and_free p).0,
    (get_string_and_free q).0,
    (get_string_and_free g).0,
    (get_string_and_free y).0,
  )

  -- `DSAPublicKey.export_dsa_raw`. The C function that it calls is the one for RSA keys, which fills in
  -- the first two.
  unfoldable pub export_dsa_raw : ℕ → Exec S (Bytes × Bytes × Bytes × Bytes)
  unfolding get_string_and_free make_datum
  export_dsa_raw key s =
      let (reply, (p, q)) = lib.export_rsa key s in
      (four (reply, (p, q, make_datum [], make_datum [])), s)

  -- `DSAPrivateKey.get_public_key`; such a key has no password.
  unfoldable pub dsa_public_key : ℕ → Bytes → Exec S ℕ
  unfolding import_uri import_dsa_raw get_string_and_free
  dsa_public_key private (b ∷ uri) = import_uri (b ∷ uri) 0 no_password
  dsa_public_key private [] = (λ s. (four (lib.private_dsa private s), s)) >>= import_dsa_raw
