-- ===== src/Crypto/Datum.antt =====
-- gnutls/library/types.py, `gnutls_datum_t`: a C buffer and its length.
use python3_gnutls.Prelude.{
  Bytes, length, take, pos, ◌≤ℤ◌, ℕ, ◌%◌, ◌^◌, ◌≡◌, Option, none, some, [], ◌∷◌,
}
use python3_gnutls.Errors.{Result, ok, bind}
use python3_gnutls.Status.{Reply, check_status}

-- `buffer` has the bytes behind the pointer `data`, or none where that is `NULL`.
pub record Datum : Type 0 where
  pub buffer : Option Bytes
  pub size : ℕ

-- `gnutls_datum_t(buf)`; a `str` is given by the bytes of its encoding. The size is a `c_uint`.
unfoldable pub make_datum : Bytes → Datum
make_datum [] = record { buffer = none; size = 0 }
make_datum (b ∷ bs) = record { buffer = some (b ∷ bs); size = length (b ∷ bs) % 2 ^ 32 }

-- `string_at(self.data, self.size)`
abbrev pub contents : Datum → Bytes
contents d = elim d.buffer [ none ↦ [] | some bytes ↦ take d.size bytes ]

-- `get_string_and_free`. What it calls to free the buffer makes a ctypes function of the address, and
-- frees nothing.
unfoldable pub get_string_and_free : Datum → Bytes × Datum
get_string_and_free d = (contents d, record d { buffer = none })

-- A checked call that fills a datum, and what the method returns of it.
unfoldable pub output : Reply × Datum → Result Bytes
unfolding get_string_and_free
output (reply, d) = bind (check_status none reply) λ _. ok (get_string_and_free d).0

-- The library succeeded and put `bytes` there.
abbrev pub Gives : Bytes → Reply × Datum → Type 0
Gives bytes (reply, d) = (pos 0 ≤ℤ reply.retcode) × (contents d ≡ bytes)
