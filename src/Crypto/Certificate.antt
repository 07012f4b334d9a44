-- ===== src/Crypto/Certificate.antt =====
-- gnutls/crypto.py, `X509Certificate`, but for the alternative names, and the same idioms in
-- `X509PrivateKey`, `X509CRL` and `Pkcs7`. A certificate is its `_c_object`, a number; what the C
-- library answers for it is a parameter.
pub mod Names
pub mod Serial
use python3_gnutls.Prelude.{
  ℕ, zero, suc, ◌+◌, ◌/◌, ◌%◌, Bool, true, false, not, ◌&&◌, none, some, List, [], ◌∷◌, Str, Bytes,
  ℤ, pos, ◌==ℤ◌, ltb, ◌==◌, take, if◌then◌else◌,
}
use python3_gnutls.Errors.{
  type_error, memory_error, certificate_error, text, new, is_subclass, Result, ok, err, bind,
}
use python3_gnutls.Text.{Unicode, decode}
use python3_gnutls.Status.{Reply, check_status}
use python3_gnutls.Buffer.{Filled, Fill, create_string_buffer, c_value, fetch}
use python3_gnutls.Crypto.Name.{X509Name, init_name}

-- The functions of libgnutls that read a certificate, by its `_c_object`.
pub record CertificateLibrary : Type 0 where
  pub get_dn : ℕ → Fill
  pub get_issuer_dn : ℕ → Fill
  pub get_serial : ℕ → Fill
  pub get_subject_alt_name : ℕ → ℕ → Fill
  pub get_activation_time : ℕ → Reply
  pub get_expiration_time : ℕ → Reply
  pub get_version : ℕ → Reply
  pub check_issuer : ℕ → ℕ → Reply
  pub check_hostname : ℕ → Bytes → Reply
  pub export_to : ℕ → ℕ → Fill

-- The body of `subject` and `issuer`.
unfoldable pub read_name : Unicode → Fill → Result X509Name
read_name u fill = bind (fetch 256 fill) λ f. bind (decode u (c_value f.buffer)) init_name

-- The body of `export`: `pemdata.raw[: size.value]`.
unfoldable pub read_blob : Fill → Result Bytes
read_blob fill = bind (fetch 4096 fill) λ f. ok (take f.size f.buffer)

-- `Pkcs7.export` ends in `pemdata.value`.
unfoldable pub read_text_blob : Fill → Result Bytes
read_text_blob fill = bind (fetch 4096 fill) λ f. ok (c_value f.buffer)

unfoldable pub hex_digit : ℕ → ℕ
hex_digit d = if ltb d 10 then b'0' + d else 87 + d

-- `b.hex()`
unfoldable pub hex : Bytes → Str
hex [] = []
hex (b ∷ bs) = hex_digit (b / 16) ∷ hex_digit (b % 16) ∷ hex bs

-- `s.lstrip("0")`
unfoldable pub strip_zeros : Str → Str
strip_zeros [] = []
strip_zeros (c ∷ s) = elim (c == b'0') [ true ↦ strip_zeros s | false ↦ c ∷ s ]

-- Whether the first call of `serial_number` lets it go on: its `MemoryError` is dropped.
abbrev ignore_memory_error : Result ℤ → Result ℤ
ignore_memory_error (ok r) = ok r
ignore_memory_error (err e) = if is_subclass e.class memory_error then ok (pos 0) else err e

unfoldable pub read_serial : Fill → Result Str
unfolding strip_zeros hex hex_digit
read_serial fill =
    let probe = fill [] 1 in
    bind (ignore_memory_error (check_status none probe.reply)) λ _.
      let f = fill (create_string_buffer probe.size) probe.size in
      bind (check_status none f.reply) λ _. ok (strip_zeros (hex (c_value f.buffer)))

-- `bool(n)`
abbrev pub truth : ℤ → Bool
truth n = not (n ==ℤ pos 0)

-- What the caller hands to `has_issuer`.
pub data Issuer : Type 0 where
  certificate : ℕ → Issuer
  other : Issuer

module _ (u : Unicode) (lib : CertificateLibrary) where
  unfoldable pub subject : ℕ → Result X509Name
  unfolding read_name
  subject c = read_name u (lib.get_dn c)

  unfoldable pub issuer : ℕ → Result X509Name
  unfolding read_name
  issuer c = read_name u (lib.get_issuer_dn c)

module _ (lib : CertificateLibrary) where
  unfoldable pub serial_number : ℕ → Result Str
  unfolding read_serial
  serial_number c = read_serial (lib.get_serial c)

  unfoldable pub activation_time : ℕ → Result ℤ
  activation_time c =
      check_status (some "cannot get X509 certificate activation time") (lib.get_activation_time c)

  unfoldable pub expiration_time : ℕ → Result ℤ
  expiration_time c =
      check_status (some "cannot get X509 certificate expiration time") (lib.get_expiration_time c)

  unfoldable pub version : ℕ → Result ℤ
  version c = check_status none (lib.get_version c)

  unfoldable pub has_issuer : ℕ → Issuer → Result Bool
  has_issuer c (certificate i) = bind (check_status none (lib.check_issuer c i)) λ r. ok (truth r)
  has_issuer c other = err (new type_error (text "issuer must be an X509Certificate object"))

  unfoldable pub has_hostname : ℕ → Bytes → Result Bool
  has_hostname c hostname =
      bind (check_status none (lib.check_hostname c hostname)) λ r. ok (truth r)

  unfoldable pub check_issuer : ℕ → Issuer → Result (Unit {0})
  unfolding has_issuer
  check_issuer c i = bind (has_issuer c i) λ matches.
      if matches
      then ok tt
      else err (new certificate_error (text "certificate issuer doesn't match"))

  unfoldable pub check_hostname : ℕ → Bytes → Result (Unit {0})
  unfolding has_hostname
  check_hostname c hostname = bind (has_hostname c hostname) λ matches.
      if matches
      then ok tt
      else err (new certificate_error (text "certificate doesn't match hostname"))

  unfoldable pub export : ℕ → ℕ → Result Bytes
  unfolding read_blob
  export c fmt = read_blob (lib.export_to c fmt)
