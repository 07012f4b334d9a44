-- ===== src/Crypto/Pkcs7.antt =====
-- gnutls/crypto.py, `Pkcs7` but for its export, which stands with the certificates' exports. An object
-- is the number of its `_c_object`.
pub mod Verification
use python3_gnutls.Prelude.{
  if◌then◌else◌, Bytes, ℤ, pos, negsuc, pos_part, ◌==ℤ◌, ℕ, zero, suc, ◌-◌, ◌%◌, ◌^◌, none, List,
  [], ◌∷◌,
}
use python3_gnutls.Errors.{Result, ok, bind}
use python3_gnutls.Status.{Reply, check_status}

-- The functions of libgnutls that read a PKCS 7 object. The trust list or the certificate comes
-- second, then the index of the signature and the signed bytes.
pub record Pkcs7Library : Type 0 where
  pub signature_count : ℕ → Reply
  pub verify_with : ℕ → ℕ → ℕ → Bytes → ℕ → Reply
  pub verify_direct_with : ℕ → ℕ → ℕ → Bytes → ℕ → Reply
  pub signature_info : ℕ → ℕ → Reply × ℕ

-- What a `c_uint` parameter makes of a Python number.
unfoldable pub to_uint : ℤ → ℕ
to_uint (pos n) = n % 2 ^ 32
to_uint (negsuc n) = 2 ^ 32 - 1 - n % 2 ^ 32

-- `range(start, start + n)`
abbrev pub count_up : ℕ → ℕ → List ℤ
count_up start zero = []
count_up start (suc n) = pos start ∷ count_up (suc start) n

-- `for idx in idxs: …`, for a checked call
unfoldable pub check_each : (ℕ → Reply) → List ℤ → Result (Unit {0})
unfolding to_uint
check_each call [] = ok tt
check_each call (idx ∷ idxs) =
    bind (check_status none (call (to_uint idx))) λ _. check_each call idxs

module _ (lib : Pkcs7Library) where
  -- `get_signature_count`
  unfoldable pub get_signature_count : ℕ → Result ℤ
  get_signature_count object = check_status none (lib.signature_count object)

  -- `idxs`, which are all signatures where the index is -1
  unfoldable pub indices : ℕ → ℤ → Result (List ℤ)
  unfolding get_signature_count
  indices object idx =
      if idx ==ℤ negsuc 0
      then bind (get_signature_count object) (λ n. ok (count_up 0 (pos_part n)))
      else ok (idx ∷ [])

  -- `verify_direct`, against a certificate
  unfoldable pub verify_direct : ℕ → ℕ → Bytes → ℤ → ℕ → Result (Unit {0})
  unfolding indices check_each
  verify_direct object cert buf idx flags =
      bind (indices object idx) (check_each (λ i. lib.verify_direct_with object cert i buf flags))

  -- `verify`, against a trust list
  unfoldable pub verify : ℕ → ℕ → Bytes → ℤ → ℕ → Result (Unit {0})
  unfolding indices check_each
  verify object tl buf idx flags =
      bind (indices object idx) (check_each (λ i. lib.verify_with object tl i buf flags))

  -- The loop of `get_signature_info`, from the index `idx` on
  unfoldable pub read_infos : ℕ → ℕ → ℕ → Result (List ℕ)
  read_infos object idx zero = ok []
  read_infos object idx (suc n) =
      let (reply, info) = lib.signature_info object idx in
      bind (check_status none reply)
        λ _. bind (read_infos object (suc idx) n) λ infos. ok (info ∷ infos)

  -- `get_signature_info`
  unfoldable pub get_signature_info : ℕ → Result (List ℕ)
  unfolding read_infos get_signature_count
  get_signature_info object =
      bind (get_signature_count object) λ n. read_infos object 0 (pos_part n)
