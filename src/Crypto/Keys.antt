-- ===== src/Crypto/Keys.antt =====
-- gnutls/crypto.py, `PrivateKey`: who releases the C object that several Python objects share.
-- `PublicKey` does the same. A key is known by its number, in the order of creation, and the C object
-- of a key that made one is named after it.
pub mod Making
pub mod Ownership
use python3_gnutls.Prelude.{
  Bytes, ◌==◌, if◌then◌else◌, Str, ℤ, ℕ, suc, ◌≡◌, ◌≢◌, Bool, true, false, ◌||◌, Option, none, some,
  List, [], ◌∷◌,
}
use python3_gnutls.Errors.{value_error, type_error, text, new, Result, ok, err}
use python3_gnutls.Exec.{Exec}
use python3_gnutls.Status.{Reply, check_status}

pub record Key : Type 0 where
  pub handle : ℕ
  pub owns : Bool
  pub pk : Option ℕ
  pub uri : Option Str
  pub keytype : ℕ
  pub srk_password : Option Bytes
  pub key_password : Option Bytes

-- The keys that Python still has, and the C objects that were released, the latest first.
pub record Heap : Type 0 where
  pub live : ℕ → Option Key
  pub next : ℕ
  pub freed : List ℕ

abbrev pub start : Heap
start = record { live = λ k. none; next = 0; freed = [] }

abbrev pub allocate : Key → Heap → Heap
allocate x h = record h { live = λ k. if k == h.next then some x else h.live k; next = suc h.next }

-- What is handed to `__init__` as `pk`.
pub data Source : Type 0 where
  absent other : Source
  key : ℕ → Source

-- The attributes that `__init__` leaves on a key that wraps the key `x` with the number `i`.
abbrev pub borrowed : ℕ → Key → ℕ → Key
borrowed i x keytype = record {
  handle = x.handle;
  owns = false;
  pk = some i;
  uri = x.uri;
  keytype = keytype;
  srk_password = none;
  key_password = none;
}

-- And on one that makes a C object of its own.
abbrev pub owned : ℕ → Option Str → ℕ → Key
owned i uri keytype = record {
  handle = i;
  owns = true;
  pk = none;
  uri = uri;
  keytype = keytype;
  srk_password = none;
  key_password = none;
}

abbrev pub wrap : ℕ → ℕ → Option Key → Exec Heap ℕ
wrap i keytype none h = (err (new type_error (text "pk must be either None or PrivateKey")), h)
wrap i keytype (some x) h = (ok h.next, allocate (borrowed i x keytype) h)

abbrev pub create : Result ℤ → Option Str → ℕ → Exec Heap ℕ
create (err e) uri keytype h = (err e, h)
create (ok _) uri keytype h = (ok h.next, allocate (owned h.next uri keytype) h)

-- `PrivateKey.__init__`, with what `gnutls_privkey_init` returns.
unfoldable pub init_key : Reply → Source → Option Str → ℕ → Exec Heap ℕ
init_key reply absent uri keytype h = create (check_status none reply) uri keytype h
init_key reply other uri keytype h =
    (err (new type_error (text "pk must be either None or PrivateKey")), h)
init_key reply (key i) uri keytype h = wrap i keytype (h.live i) h

-- `PrivateKey.__del__` on the key `x` with the number `i`
unfoldable pub delete_key : ℕ → Key → Heap → Heap
delete_key i x h = record h {
  live = λ k. if k == i then none else h.live k;
  freed = if x.owns then x.handle ∷ h.freed else h.freed;
}

-- What Python does with keys: it makes them, and deletes one that no other key refers to.
pub data Step (h : Heap) : Heap → Type 0 where
  made :
      (reply : Reply) (source : Source) (uri : Option Str) (keytype : ℕ)
      → Step h (init_key reply source uri keytype h).1
  deleted :
      (i : ℕ) (x : Key)
      → h.live i ≡ some x
      → ((k : ℕ) (y : Key) → h.live k ≡ some y → y.pk ≢ some i)
      → Step h (delete_key i x h)

pub data Reaches (h : Heap) : Heap → Type 0 where
  here : Reaches h h
  there : {g i : Heap} → Reaches h g → Step g i → Reaches h i

-- GNUTLS_PK_*
abbrev pub pk_rsa : ℕ
pk_rsa = 1

abbrev pub pk_dsa : ℕ
pk_dsa = 2

abbrev pub pk_ecdsa : ℕ
pk_ecdsa = 4

abbrev pub pk_ecdh_x25519 : ℕ
pk_ecdh_x25519 = 5

abbrev pub pk_rsa_pss : ℕ
pk_rsa_pss = 6

abbrev pub pk_eddsa_ed25519 : ℕ
pk_eddsa_ed25519 = 7

-- `pk_algorithm_to_keytype`: KEY_TYPE_RSA, KEY_TYPE_DSA or KEY_TYPE_EC.
unfoldable pub keytype_of : ℕ → Result ℕ
keytype_of algo =
    if algo == pk_rsa || algo == pk_rsa_pss
    then ok 1
    else if algo == pk_dsa
    then ok 2
    else if algo == pk_ecdsa || algo == pk_ecdh_x25519 || algo == pk_eddsa_ed25519
    then ok 3
    else err (new value_error (text "Unknown pk_algorithm to convert to key type"))
