-- ===== src/Crypto/Raw/Public.antt =====
-- The public key of a private one.
use python3_gnutls.Prelude.{Bytes, length, pos, ◌≤ℤ◌, ℕ, ◌^◌, ◌<◌, ◌≡◌, ap, ◌∙◌, none, []}
use python3_gnutls.Errors.{ok, bind}
use python3_gnutls.Exec.{◌>>=◌, bind-eq, pure}
use python3_gnutls.Status.{Reply}
use python3_gnutls.Status.Laws.{check_status_ok}
use python3_gnutls.Crypto.Datum.{Datum, make_datum, contents, get_string_and_free}
use python3_gnutls.Crypto.Signing.Agreement.{contents-make_datum}
use python3_gnutls.Crypto.Raw.{
  Two, RawLibrary, Password, calls, new_public, import_rsa_raw, two, export_rsa_raw, rsa_public_key,
}

-- A library that makes and imports keys, and exports from a key what was imported to it last.
pub record Remembers {S : Type 0} (lib : RawLibrary S) : Type 0 where
  pub makes : (s : S) → pos 0 ≤ℤ (lib.init_public s).0.0.retcode
  pub imports : (key : ℕ) (m e : Datum) (s : S) → pos 0 ≤ℤ (lib.import_rsa key (m, e) s).0.retcode
  pub exports :
      (key : ℕ) (m e : Datum) (s : S)
      → let (reply, (m', e')) = lib.export_rsa key (lib.import_rsa key (m, e) s).1 in
        (pos 0 ≤ℤ reply.retcode) × (contents m' ≡ contents m) × (contents e' ≡ contents e)

module _ {S : Type 0} (lib : RawLibrary S) where
  two_lem :
      (m e : Bytes) (o : Reply × Two)
      → pos 0 ≤ℤ o.0.retcode
      → contents o.1.0 ≡ m
      → contents o.1.1 ≡ e
      → two lib o ≡ ok (m, e)
  unfolding get_string_and_free
  two_lem m e (reply, (d, f)) accepted hm he =
      ap (λ r. bind r (λ _. ok (contents d, contents f))) (check_status_ok none reply accepted)
      ∙ ap ok (ap (λ x. (x, contents f)) hm ∙ ap (λ x. (m, x)) he)

  -- Over a library that exports from a key what was imported to it, the public key that is made of a
  -- private RSA key without an address exports the very modulus and
  -- exponent of the private one, whole, where they are shorter than 4 GB.
  pub export_rsa_raw-rsa_public_key :
      (private : ℕ) (srk : Password) (m e : Bytes) (s : S)
      → Remembers lib
      → pos 0 ≤ℤ (lib.private_rsa private s).0.retcode
      → contents (lib.private_rsa private s).1.0 ≡ m
      → contents (lib.private_rsa private s).1.1 ≡ e
      → length m < 2 ^ 32
      → length e < 2 ^ 32
      → ((rsa_public_key lib private [] srk >>= export_rsa_raw lib) s).0 ≡ ok (m, e)
  unfolding rsa_public_key import_rsa_raw export_rsa_raw new_public
  export_rsa_raw-rsa_public_key private srk m e s r accepted hm he short_m short_e =
      let key = (lib.init_public s).0.1 in
      let s1 = (lib.init_public s).1 in
      let d = make_datum m in
      let f = make_datum e in
      let s2 = (lib.import_rsa key (d, f) s1).1 in
      let exported = r.exports key d f s1 in
      let read = two_lem m e (lib.private_rsa private s) accepted hm he in
      let made =
        ap (λ x. (bind x (λ _. ok key), s1))
          (check_status_ok none (lib.init_public s).0.0 (r.makes s)) in
      let imported =
        ap (λ x. (x, s2))
          (check_status_ok none (lib.import_rsa key (d, f) s1).0 (r.imports key d f s1)) in
      let out =
        two_lem m e (lib.export_rsa key s2) exported.0 (exported.1 ∙ contents-make_datum m short_m)
          (exported.2 ∙ contents-make_datum e short_e) in
      ap (λ o. o.0)
        (bind-eq (rsa_public_key lib private [] srk) (export_rsa_raw lib) (
          bind-eq (λ t. (two lib (lib.private_rsa private t), t)) (import_rsa_raw lib)
            (ap (λ x. (x, s)) read)
          ∙ bind-eq (new_public lib) (λ j. calls lib (lib.import_rsa j (d, f)) >>= λ _. pure j) made
          ∙ bind-eq (calls lib (lib.import_rsa key (d, f))) (λ _. pure key) imported))
      ∙ out
