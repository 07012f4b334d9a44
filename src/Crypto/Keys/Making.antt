-- ===== src/Crypto/Keys/Making.antt =====
-- gnutls/crypto.py: the keys that `PrivateKey.generate` and `PrivateKey.import_uri` return. Texts are
-- given by the bytes of their encoding.
pub mod Sound
pub mod Usable
pub mod Generated
use python3_gnutls.Prelude.{
  ◌==◌, if◌then◌else◌, Bytes, ℤ, pos, pos_part, ℕ, Bool, true, false, ◌&&◌, Option, none, some, [],
  ◌∷◌,
}
use python3_gnutls.Errors.{attribute_error, text, new, ok}
use python3_gnutls.Exec.{◌>>=◌, ◌>>◌, Exec, pure, raise, lift, modify}
use python3_gnutls.Status.{Reply, returns, check_status}
use python3_gnutls.Crypto.Keys.{Key, Heap, absent, key, init_key, keytype_of}

-- The functions of libgnutls on a private key.
pub record KeyLibrary : Type 0 where
  pub init_reply : Reply
  pub generate_with : ℕ → ℕ → ℕ → ℕ → Reply
  pub import_url : ℕ → Bytes → ℕ → Reply
  pub import_tpm_url : ℕ → Bytes → Bytes → Bytes → ℕ → Reply
  pub pk_algorithm : ℕ → Reply

-- The Python class of a key
pub data KeyClass : Type 0 where
  private_key rsa_private_key dsa_private_key : KeyClass

abbrev apply_to : (Key → Key) → Option Key → Option Key
apply_to f none = none
apply_to f (some x) = some (f x)

-- An assignment to attributes of the key with the number `i`
abbrev pub update : ℕ → (Key → Key) → Heap → Heap
update i f h = record h { live = λ k. if k == i then apply_to f (h.live k) else h.live k }

abbrev srk_password_of : Option Key → Option Bytes
srk_password_of none = none
srk_password_of (some x) = x.srk_password

-- `self.srk_password = pk.srk_password`, for the keys `j` and `i`
unfoldable pub copy_password : ℕ → ℕ → Heap → Heap
copy_password i j h = update j (λ x. record x { srk_password = srk_password_of (h.live i) }) h

-- `RSAPrivateKey.__init__` and `DSAPrivateKey.__init__`
unfoldable pub init_rsa : ℕ → Exec Heap (KeyClass × ℕ)
unfolding init_key copy_password
init_rsa i = init_key (returns (pos 0)) (key i) none 0 >>= λ j.
    λ h. (ok (rsa_private_key, j), copy_password i j h)

unfoldable pub init_dsa : ℕ → Exec Heap (KeyClass × ℕ)
unfolding init_key
init_dsa i = init_key (returns (pos 0)) (key i) none 0 >>= λ j. pure (dsa_private_key, j)

-- The key that `upcast` returns.
unfoldable pub wrap_as : ℕ → ℕ → Exec Heap (KeyClass × ℕ)
unfolding init_rsa init_dsa
wrap_as keytype i =
    if keytype == 1 then init_rsa i else if keytype == 2 then init_dsa i else pure (private_key, i)

-- `upcast`, on the key with the number `i`
unfoldable pub upcast : ℕ → ℕ → Exec Heap (KeyClass × ℕ)
unfolding keytype_of wrap_as
upcast algo i = lift (keytype_of algo) >>= λ keytype.
    modify (update i (λ x. record x { keytype = keytype })) >> wrap_as keytype i

abbrev pub is_falsy : Option Bytes → Bool
is_falsy none = true
is_falsy (some []) = true
is_falsy (some (b ∷ bs)) = false

-- The three assignments of `import_uri`
abbrev pub remember : Bytes → Option Bytes → Option Bytes → Key → Key
remember uri srk_password key_password x = record x {
  uri = some uri;
  srk_password = srk_password;
  key_password = key_password;
}

module _ (lib : KeyLibrary) where
  abbrev pub checked : Reply → Exec Heap ℤ
  checked reply = lift (check_status none reply)

  -- `generate`
  unfoldable pub generate : ℕ → ℕ → ℕ → Exec Heap (KeyClass × ℕ)
  unfolding init_key upcast
  generate algo bits flags = init_key lib.init_reply absent none 0 >>= λ i.
      checked (lib.generate_with i algo bits flags) >> upcast algo i

  -- The call for a key of a TPM. `None` has no method `encode`.
  unfoldable pub import_tpm : ℕ → Bytes → ℕ → Option Bytes → Option Bytes → Exec Heap ℤ
  import_tpm i uri flags (some srk) (some password) =
      checked (lib.import_tpm_url i uri srk password flags)
  import_tpm i uri flags _ _ = raise (new attribute_error (text "no attribute encode"))

  -- `import_uri`, from the call of the library on
  unfoldable pub import_into :
      ℕ → Bytes → ℕ → Option Bytes → Option Bytes → Exec Heap (KeyClass × ℕ)
  unfolding import_tpm upcast
  import_into i uri flags srk_password key_password =
      (if is_falsy srk_password && is_falsy key_password
        then checked (lib.import_url i uri flags)
        else import_tpm i uri flags srk_password key_password)
      >> (checked (lib.pk_algorithm i) >>= λ algo. upcast (pos_part algo) i)

  -- `import_uri`
  unfoldable pub import_uri : Bytes → ℕ → Option Bytes → Option Bytes → Exec Heap (KeyClass × ℕ)
  unfolding init_key import_into
  import_uri uri flags srk_password key_password = init_key lib.init_reply absent none 0 >>= λ i.
      modify (update i (remember uri srk_password key_password))
      >> import_into i uri flags srk_password key_password
