-- ===== src/Tests/Library.antt =====
-- Concrete stand-ins for libgnutls, that behave as its documentation says.
use python3_gnutls.Prelude.{ltb, if◌then◌else◌, Bytes, length, drop, pos, ℕ, ◌++◌, arith}
use python3_gnutls.Status.{returns}
use python3_gnutls.Constants.Code
use python3_gnutls.Buffer.{Fill, Delivers}

-- A function that hands out `written` and, where the buffer is large enough, returns `code`.
abbrev pub serving : ℕ → Bytes → Fill
serving code written b n =
    if ltb n (length written)
    then record { reply = returns Code.short_memory_buffer; buffer = b; size = length written }
    else record {
      reply = returns (pos code);
      buffer = written ++ drop (length written) b;
      size = length written;
    }

pub serving-Delivers :
    (code : ℕ) (written : Bytes) → Delivers written (length written) (serving code written)
serving-Delivers code written = record {
  short = λ b n h. (ground arith, ground arith);
  fits = λ b n h. (ground arith, ground arith, ground arith);
}
