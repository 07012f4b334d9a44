-- ===== src/Crypto/Certificate/Serial.antt =====
-- The serial number as text: its value, and where it is cut short.
use python3_gnutls.Prelude.{
  ℕ, zero, suc, ◌/◌, ◌%◌, ap, ◌+◌, ◌-◌, ◌*◌, ◌<◌, ◌≤◌, ◌≢◌, ◌⊎◌, ◌≡◌, refl, ◌∙◌, [], ◌∷◌, ◌++◌,
  append-nil, Str, Bytes, ℤ, pos, All, length, drop, ltb, ltb→lt, if◌then◌else◌, arith, Bool-cases,
  inl, inr, none,
}
use python3_gnutls.Errors.{is_subclass, ok}
use python3_gnutls.Text.Laws.{Lacks}
use python3_gnutls.Status.{check_status}
use python3_gnutls.Status.Laws.{check_status_ok, check_status_short}
use python3_gnutls.Buffer.{Fill, create_string_buffer, c_value, Delivers}
use python3_gnutls.Buffer.Laws.{c_value-append_zero}
use python3_gnutls.Crypto.Certificate.{
  CertificateLibrary, serial_number, hex_digit, hex, ignore_memory_error, strip_zeros, read_serial,
}

-- The value of a hexadecimal text, from the left.
unfoldable pub from_hex : ℕ → Str → ℕ
from_hex acc [] = acc
from_hex acc (c ∷ s) = from_hex (acc * 16 + (if ltb c 58 then c - 48 else c - 87)) s

-- The value of a byte string, the most significant byte first.
unfoldable pub big_endian : ℕ → Bytes → ℕ
big_endian acc [] = acc
big_endian acc (b ∷ bs) = big_endian (acc * 256 + b) bs

hex_digit_value :
    (d : ℕ) → d < 16 → (if ltb (hex_digit d) 58 then hex_digit d - 48 else hex_digit d - 87) ≡ d
unfolding hex_digit
hex_digit_value d h = ground arith

from_hex_two :
    (acc d e : ℕ) (s : Str)
    → d < 16
    → e < 16
    → from_hex acc (hex_digit d ∷ hex_digit e ∷ s) ≡ from_hex ((acc * 16 + d) * 16 + e) s
unfolding from_hex
from_hex_two acc d e s hd he = rw (hex_digit_value d hd, hex_digit_value e he)

from_hex-hex :
    (acc : ℕ) (bs : Bytes) → All (λ b. b < 256) bs → from_hex acc (hex bs) ≡ big_endian acc bs
unfolding hex big_endian from_hex
from_hex-hex acc [] h = refl
from_hex-hex acc (b ∷ bs) h =
    from_hex_two acc (b / 16) (b % 16) (hex bs) (omega arith) (omega arith)
    ∙ (ap (λ a. from_hex a (hex bs)) (omega arith) ∙ from_hex-hex (acc * 256 + b) bs h.1)

from_hex-strip_zeros : (s : Str) → from_hex 0 (strip_zeros s) ≡ from_hex 0 s
unfolding from_hex strip_zeros
from_hex-strip_zeros [] = refl
from_hex-strip_zeros (c ∷ s) = ground (arith, from_hex-strip_zeros s)

drop_all : (n : ℕ) → drop n (create_string_buffer n) ≡ []
drop_all zero = refl
drop_all (suc n) = drop_all n

-- The first call, with no buffer, tells the size.
probe :
    (fill : Fill) (serial : Bytes)
    → Delivers serial (length serial) fill
    → (r : ℤ) × (ignore_memory_error (check_status none (fill [] 1).reply) ≡ ok r)
      × ((fill [] 1).size ≡ length serial)
unfolding is_subclass
probe fill serial d = elim (Bool-cases (ltb 1 (length serial))) [
  | inl small ↦
      let (code, size) = d.short [] 1 (ltb→lt 1 (length serial) small) in
      (pos 0, rw (check_status_short (fill [] 1).reply code), size)
  | inr large ↦
      let (positive, size, _) = d.fits [] 1 (ground arith) in
      ((fill [] 1).reply.retcode, rw (check_status_ok none (fill [] 1).reply positive), size)
]

-- `serial_number` is the hexadecimal text of what stands before the first zero byte.
pub read_serial_lem :
    (fill : Fill) (serial : Bytes)
    → Delivers serial (length serial) fill
    → read_serial fill ≡ ok (strip_zeros (hex (c_value serial)))
unfolding read_serial
read_serial_lem fill serial d =
    let (_, go_on, size) = probe fill serial d in
    let n = length serial in
    let (positive, _, full) = d.fits (create_string_buffer n) n (omega arith) in
    rw (
      go_on,
      size,
      check_status_ok none (fill (create_string_buffer n) n).reply positive,
      full,
      drop_all n,
      append-nil serial,
    )

c_value_whole : (v : Bytes) → Lacks 0 v → c_value v ≡ v
unfolding c_value
c_value_whole [] h = refl
c_value_whole (b ∷ v) h = ground (arith, c_value_whole v h.1)

-- A serial number of any length with no zero byte is read as the hexadecimal text of its value.
pub serial_number_value :
    (lib : CertificateLibrary) (c : ℕ) (serial : Bytes)
    → Delivers serial (length serial) (lib.get_serial c)
    → All (λ b. b < 256) serial
    → Lacks 0 serial
    → (s : Str) × (serial_number lib c ≡ ok s) × (from_hex 0 s ≡ big_endian 0 serial)
serial_number_value lib c serial d bytes zero_free = (
  strip_zeros (hex serial),
  text,
  from_hex-strip_zeros (hex serial) ∙ from_hex-hex 0 serial bytes,
)
  where
    text : serial_number lib c ≡ ok (strip_zeros (hex serial))
    text =
        unfold serial_number in
        read_serial_lem (lib.get_serial c) serial d
        ∙ ap (λ v. ok (strip_zeros (hex v))) (c_value_whole serial zero_free)

-- A serial number with a zero byte is cut there: what comes back is the text of the bytes before
-- the first zero byte alone, whatever follows it.
pub serial_number-cut :
    (lib : CertificateLibrary) (c : ℕ) (front back : Bytes)
    → Lacks 0 front
    → Delivers (front ++ 0 ∷ back) (length (front ++ 0 ∷ back)) (lib.get_serial c)
    → serial_number lib c ≡ ok (strip_zeros (hex front))
serial_number-cut lib c front back zero_free d =
    unfold serial_number in
    read_serial_lem (lib.get_serial c) (front ++ 0 ∷ back) d
    ∙ ap (λ v. ok (strip_zeros (hex v))) (c_value-append_zero front back zero_free)

-- The characters of a hexadecimal text, in lower case
abbrev pub IsHexDigit : ℕ → Type 0
IsHexDigit c = ((48 ≤ c) × (c ≤ 57)) ⊎ ((97 ≤ c) × (c ≤ 102))

-- The text does not begin with a zero, so that no other text of digits has its value.
abbrev pub IsShortest : Str → Type 0
IsShortest [] = Unit {0}
IsShortest (c ∷ s) = c ≢ 48
