-- ===== src/BitBuffer/LittleEndian.antt =====
-- The typed reads and writes of `BitBuffer`. A value is a number below 2 to its width in bits; the
-- bits of a signed integer and of a float are those that `std::memcpy` copies, so their wrappers
-- come to those of the unsigned integer of their width. `little_endian` is
-- `detail::host_is_little_endian`, which the build decides.
use ashiato.Base.{
  ℕ, zero, suc, ◌+◌, ◌*◌, ◌^◌, ◌/◌, ◌%◌, Bool, if◌then◌else◌, List, [], ◌∷◌, Result, ok, ◌>>=◌,
  push_back,
}
use Prim.Native.Nat.{bit_and, bit_or}
use ashiato.BitBuffer.{BitBuffer, shift_right, shift_left}
use ashiato.BitBuffer.Write.{write_bytes}
use ashiato.BitBuffer.Read.{read_bytes}

-- The unsigned types that the wrappers are for
pub data Width : Type 0 where
  uint8 uint16 uint32 uint64 : Width

abbrev pub size_of : Width → ℕ
size_of Width.uint8 = 1
size_of Width.uint16 = 2
size_of Width.uint32 = 4
size_of Width.uint64 = 8

-- The overloads of `byte_swap`
unfoldable pub byte_swap16 : ℕ → ℕ
byte_swap16 value = bit_or (shift_right value 8) (value * 2 ^ 8) % 2 ^ 16

-- `(value & mask) << n` on 32 bits
abbrev left32 : ℕ → ℕ → ℕ → ℕ
left32 value mask n = bit_and value mask * 2 ^ n % 2 ^ 32

abbrev left64 : ℕ → ℕ → ℕ → ℕ
left64 value mask n = shift_left (bit_and value mask) n

abbrev right : ℕ → ℕ → ℕ → ℕ
right value mask n = shift_right (bit_and value mask) n

unfoldable pub byte_swap32 : ℕ → ℕ
byte_swap32 value =
    bit_or
      (bit_or (bit_or (left32 value 0x000000FF 24) (left32 value 0x0000FF00 8))
        (right value 0x00FF0000 8))
      (right value 0xFF000000 24)

unfoldable pub byte_swap64 : ℕ → ℕ
byte_swap64 value =
    let low2 = bit_or (left64 value 0x00000000000000FF 56) (left64 value 0x000000000000FF00 40) in
    let low3 = bit_or low2 (left64 value 0x0000000000FF0000 24) in
    let low4 = bit_or low3 (left64 value 0x00000000FF000000 8) in
    let low5 = bit_or low4 (right value 0x000000FF00000000 8) in
    let low6 = bit_or low5 (right value 0x0000FF0000000000 24) in
    let low7 = bit_or low6 (right value 0x00FF000000000000 40) in
    bit_or low7 (right value 0xFF00000000000000 56)

-- The overloads of `little_endian_value`
unfoldable pub little_endian_value : Bool → Width → ℕ → ℕ
little_endian_value little_endian Width.uint8 value = value
little_endian_value little_endian Width.uint16 value =
    if little_endian then value else byte_swap16 value
little_endian_value little_endian Width.uint32 value =
    if little_endian then value else byte_swap32 value
little_endian_value little_endian Width.uint64 value =
    if little_endian then value else byte_swap64 value

-- The bytes of an object in the memory of the host, and back
unfoldable pub low_first : ℕ → ℕ → List ℕ
low_first zero value = []
low_first (suc n) value = value % 256 ∷ low_first n (value / 256)

unfoldable pub high_first : ℕ → ℕ → List ℕ
high_first zero value = []
high_first (suc n) value = push_back (high_first n (value / 256)) (value % 256)

unfoldable pub object_bytes : Bool → ℕ → ℕ → List ℕ
object_bytes little_endian n value = if little_endian then low_first n value else high_first n value

unfoldable pub from_low_first : List ℕ → ℕ
from_low_first [] = 0
from_low_first (byte ∷ rest) = byte + 256 * from_low_first rest

unfoldable pub from_high_first : List ℕ → ℕ → ℕ
from_high_first [] value = value
from_high_first (byte ∷ rest) value = from_high_first rest (value * 256 + byte)

unfoldable pub object_value : Bool → List ℕ → ℕ
object_value little_endian bytes =
    if little_endian then from_low_first bytes else from_high_first bytes 0

unfoldable pub write_little_endian_unsigned : Bool → Width → BitBuffer → ℕ → Result BitBuffer
write_little_endian_unsigned little_endian width b value =
    write_bytes b
      (object_bytes little_endian (size_of width) (little_endian_value little_endian width value))

unfoldable pub read_little_endian_unsigned : Bool → Width → BitBuffer → Result (ℕ × BitBuffer)
read_little_endian_unsigned little_endian width b = read_bytes b (size_of width) >>= λ r.
    ok (little_endian_value little_endian width (object_value little_endian r.0), r.1)

unfoldable pub write_uint8 : Bool → BitBuffer → ℕ → Result BitBuffer
write_uint8 little_endian b value = write_little_endian_unsigned little_endian Width.uint8 b value

unfoldable pub write_uint16_le : Bool → BitBuffer → ℕ → Result BitBuffer
write_uint16_le little_endian b value =
    write_little_endian_unsigned little_endian Width.uint16 b value

unfoldable pub write_uint32_le : Bool → BitBuffer → ℕ → Result BitBuffer
write_uint32_le little_endian b value =
    write_little_endian_unsigned little_endian Width.uint32 b value

unfoldable pub write_uint64_le : Bool → BitBuffer → ℕ → Result BitBuffer
write_uint64_le little_endian b value =
    write_little_endian_unsigned little_endian Width.uint64 b value

unfoldable pub read_uint8 : Bool → BitBuffer → Result (ℕ × BitBuffer)
read_uint8 little_endian b = read_little_endian_unsigned little_endian Width.uint8 b

unfoldable pub read_uint16_le : Bool → BitBuffer → Result (ℕ × BitBuffer)
read_uint16_le little_endian b = read_little_endian_unsigned little_endian Width.uint16 b

unfoldable pub read_uint32_le : Bool → BitBuffer → Result (ℕ × BitBuffer)
read_uint32_le little_endian b = read_little_endian_unsigned little_endian Width.uint32 b

unfoldable pub read_uint64_le : Bool → BitBuffer → Result (ℕ × BitBuffer)
read_uint64_le little_endian b = read_little_endian_unsigned little_endian Width.uint64 b
