-- ===== src/BitBuffer.antt =====
-- `BitBuffer` of include/ashiato/bit_buffer.hpp: a vector of bytes that is written and read bit by
-- bit, the lowest bit of a byte first. A byte is a number below 256 and a `std::uint64_t` one below
-- 2 ^ 64; a shift to the left is cut off at the width, and a complement is a difference from the
-- largest value. Signed values are given by their two's complement.
pub mod Write
pub mod Read
pub mod LittleEndian
pub mod Bits
pub mod Append
pub mod RoundTrip
use ashiato.Base.{
  ℕ, zero, suc, ◌+◌, ◌-◌, ◌*◌, ◌^◌, ◌%◌, Bool, true, false, not, ◌||◌, ◌&&◌, ◌==◌, ltb, leb,
  if◌then◌else◌, List, [], ◌∷◌, length, get_or, set, resize, Error, Result, ok, err, throw_if, ◌>>◌,
}
use Prim.Native.Nat.{◌/◌, bit_and, bit_or}

pub record BitBuffer : Type 0 where
  pub bytes : List ℕ
  pub bit_size : ℕ
  pub read_bit : ℕ

abbrev pub new : BitBuffer
new = record { bytes = []; bit_size = 0; read_bit = 0 }

-- The operators of C++ on `std::uint8_t` and `std::uint64_t`
abbrev pub shift_right : ℕ → ℕ → ℕ
shift_right value n = value / 2 ^ n

abbrev pub shift_left : ℕ → ℕ → ℕ
shift_left value n = value * 2 ^ n % 2 ^ 64

abbrev pub not8 : ℕ → ℕ
not8 value = 255 - value

abbrev pub not64 : ℕ → ℕ
not64 value = (2 ^ 64 - 1) - value

unfoldable pub clear : BitBuffer → BitBuffer
clear b = record { bytes = []; bit_size = 0; read_bit = 0 }

unfoldable pub empty : BitBuffer → Bool
empty b = b.bit_size == 0

unfoldable pub byte_size : BitBuffer → ℕ
byte_size b = (b.bit_size + 7) / 8

unfoldable pub remaining_bits : BitBuffer → ℕ
remaining_bits b = b.bit_size - b.read_bit

unfoldable pub reset_read : BitBuffer → BitBuffer
reset_read b = record { bytes = b.bytes; bit_size = b.bit_size; read_bit = 0 }

-- The bytes after `clear_unused_tail_bits`
unfoldable pub clear_unused_tail_bits : List ℕ → ℕ → List ℕ
clear_unused_tail_bits bytes bit_size =
    let used_bits = bit_size % 8 in
    if used_bits == 0 || length bytes == 0
    then bytes
    else set bytes (length bytes - 1)
        (bit_and (get_or bytes (length bytes - 1) 0) (2 ^ used_bits - 1))

unfoldable pub assign_bytes : BitBuffer → List ℕ → ℕ → Result BitBuffer
assign_bytes b bytes bit_size =
    throw_if (ltb (length bytes * 8) bit_size) Error.invalid_argument
    >> ok (record {
      bytes = clear_unused_tail_bits bytes bit_size;
      bit_size = bit_size;
      read_bit = 0;
    })

unfoldable pub truncate_bits : BitBuffer → ℕ → Result BitBuffer
truncate_bits b bit_size =
    throw_if (ltb b.bit_size bit_size) Error.out_of_range
    >> ok (record {
      bytes = clear_unused_tail_bits (resize b.bytes ((bit_size + 7) / 8) 0) bit_size;
      bit_size = bit_size;
      read_bit = if ltb bit_size b.read_bit then bit_size else b.read_bit;
    })

unfoldable pub ensure_can_read : BitBuffer → ℕ → Result (Unit {0})
ensure_can_read b num_bits = throw_if (ltb (remaining_bits b) num_bits) Error.out_of_range

-- The tests `lhs == rhs` on the bytes and on the buffers
unfoldable pub same_bytes : List ℕ → List ℕ → Bool
same_bytes [] [] = true
same_bytes (x ∷ xs) (y ∷ ys) = x == y && same_bytes xs ys
same_bytes xs ys = false

unfoldable pub equal : BitBuffer → BitBuffer → Bool
equal lhs rhs = lhs.bit_size == rhs.bit_size && same_bytes lhs.bytes rhs.bytes
