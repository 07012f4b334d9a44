-- ===== src/Buffer.antt =====
-- The way gnutls/crypto.py reads variable-length results: a ctypes buffer with a first size, and
-- where the library finds it too short, one of the size that the library then names.
pub mod Laws
pub mod Padding
use python3_gnutls.Prelude.{
  ℕ, zero, suc, ◌≡◌, ◌≤◌, ◌<◌, ◌+◌, Bool, true, false, none, List, [], ◌∷◌, ◌++◌, Bytes, ℤ, pos,
  negsuc, ◌≤ℤ◌, length, take, drop, replicate, ◌==◌, if◌then◌else◌,
}
use python3_gnutls.Constants.Code
use python3_gnutls.Errors.{memory_error, is_subclass, Result, ok, err, bind}
use python3_gnutls.Status.{Reply, check_status}

-- What a library function leaves behind that was handed a buffer and, by reference, its size.
pub record Filled : Type 0 where
  pub reply : Reply
  pub buffer : Bytes
  pub size : ℕ

-- Such a function, its other arguments given. A `NULL` buffer is the empty one.
abbrev pub Fill : Type 0
Fill = Bytes → ℕ → Filled

-- `create_string_buffer(n)`
abbrev pub create_string_buffer : ℕ → Bytes
create_string_buffer n = replicate n 0

-- `buffer.value`: the bytes before the first zero
unfoldable pub c_value : Bytes → Bytes
c_value [] = []
c_value (b ∷ bs) = if b == 0 then [] else b ∷ c_value bs

-- The call in the `except MemoryError` branch.
unfoldable pub retry : Fill → ℕ → Result Filled
retry fill n =
    let second = fill (create_string_buffer n) n in
    bind (check_status none second.reply) (λ _. ok second)

-- The call in the `try`, with what the handler makes of its exception.
unfoldable pub fetch : ℕ → Fill → Result Filled
unfolding retry
fetch n fill =
    let first = fill (create_string_buffer n) n in
    elim (check_status none first.reply) [
      | ok _ ↦ ok first
      | err e ↦ if is_subclass e.class memory_error then retry fill first.size else err e
    ]

-- How the library documents these functions: `written` are the bytes that it puts into the buffer,
-- where that is large enough, and else it answers GNUTLS_E_SHORT_MEMORY_BUFFER with the size that
-- is needed.
pub record Delivers (written : Bytes) (size : ℕ) (fill : Fill) : Type 0 where
  pub short :
      (b : Bytes) (n : ℕ)
      → n < length written
      → ((fill b n).reply.retcode ≡ Code.short_memory_buffer) × ((fill b n).size ≡ length written)
  pub fits :
      (b : Bytes) (n : ℕ)
      → length written ≤ n
      → (pos 0 ≤ℤ (fill b n).reply.retcode)
        × ((fill b n).size ≡ size)
        × ((fill b n).buffer ≡ written ++ drop (length written) b)
