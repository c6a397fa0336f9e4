-- ===== src/BitBuffer/Write.antt =====
-- The writes of `BitBuffer`.
use ashiato.Base.{
  ℕ, zero, suc, ◌+◌, ◌-◌, ◌*◌, ◌^◌, ◌%◌, Bool, true, false, ◌||◌, ◌&&◌, ◌==◌, ltb, leb,
  if◌then◌else◌, List, [], ◌∷◌, ◌++◌, length, get_or, set, resize, push_back, Error, Result, ok,
  throw_if, ◌>>◌, ◌>>=◌,
}
use Prim.Native.Nat.{◌/◌, bit_and, bit_or}
use ashiato.BitBuffer.{BitBuffer, shift_right, shift_left, not8, not64}

-- One bit of a byte, set or reset
unfoldable pub put_bit : ℕ → ℕ → Bool → ℕ
put_bit byte bit true = bit_or byte (2 ^ bit)
put_bit byte bit false = bit_and byte (not8 (2 ^ bit))

unfoldable pub write_bool : BitBuffer → Bool → BitBuffer
write_bool b value =
    let bytes = if b.bit_size % 8 == 0 then push_back b.bytes 0 else b.bytes in
    record {
      bytes =
          set bytes (b.bit_size / 8)
            (put_bit (get_or bytes (b.bit_size / 8) 0) (b.bit_size % 8) value);
      bit_size = b.bit_size + 1;
      read_bit = b.read_bit;
    }

-- The bytes of a value, the lowest first
unfoldable pub low_bytes : ℕ → ℕ → ℕ → List ℕ
low_bytes zero byte value = []
low_bytes (suc n) byte value =
    bit_and (shift_right value (byte * 8)) 0xFF ∷ low_bytes n (byte + 1) value

-- `bits`: the part of the value that belongs into the touched byte with this number.
-- `source_start` is `byte * 8 - bit_shift`, which may be negative.
unfoldable pub source_bits : ℕ → ℕ → ℕ → ℕ
source_bits value bit_shift byte =
    if leb bit_shift (byte * 8)
    then (if ltb (byte * 8 - bit_shift) 64
        then bit_and (shift_right value (byte * 8 - bit_shift)) 0xFF
        else 0)
    else bit_and (shift_left value (bit_shift - byte * 8)) 0xFF

-- `mask`: the bits of this byte that are written, for the bits from `bit` on.
unfoldable pub write_mask : ℕ → ℕ → ℕ → ℕ → ℕ → ℕ → ℕ
write_mask zero bit num_bits bit_shift byte mask = mask
write_mask (suc n) bit num_bits bit_shift byte mask =
    write_mask n (bit + 1) num_bits bit_shift byte (
      if leb bit_shift (byte * 8 + bit) && ltb (byte * 8 + bit - bit_shift) num_bits
      then bit_or mask (2 ^ bit)
      else mask)

-- The loop over the touched bytes, from `byte` on.
unfoldable pub write_touched : ℕ → ℕ → ℕ → ℕ → ℕ → ℕ → List ℕ → List ℕ
write_touched zero byte value num_bits bit_shift byte_offset bytes = bytes
write_touched (suc n) byte value num_bits bit_shift byte_offset bytes =
    let mask = write_mask 8 0 num_bits bit_shift byte 0 in
    write_touched n (byte + 1) value num_bits bit_shift byte_offset (
      set bytes (byte_offset + byte) (
        bit_or (bit_and (get_or bytes (byte_offset + byte) 0) (not8 mask))
          (bit_and (source_bits value bit_shift byte) mask)))

unfoldable pub write_unsigned_bits : BitBuffer → ℕ → ℕ → Result BitBuffer
write_unsigned_bits b value num_bits =
    let bit_shift = b.bit_size % 8 in
    let new_bit_size = b.bit_size + num_bits in
    let new_byte_size = (new_bit_size + 7) / 8 in
    let wide =
      if ltb (length b.bytes) new_byte_size then resize b.bytes new_byte_size 0 else b.bytes in
    throw_if (ltb 64 num_bits) Error.invalid_argument
    >> (if num_bits == 0
        then ok b
        else if b.bit_size % 8 == 0 && num_bits % 8 == 0
        then ok (record {
          bytes = b.bytes ++ low_bytes (num_bits / 8) 0 value;
          bit_size = b.bit_size + num_bits;
          read_bit = b.read_bit;
        })
        else ok (record {
          bytes =
              write_touched ((bit_shift + num_bits + 7) / 8) 0 value num_bits bit_shift
                (b.bit_size / 8) wide;
          bit_size = new_bit_size;
          read_bit = b.read_bit;
        }))

-- `bytes_[byte_offset + byte] = (value >> (byte * 8)) & 0xFF` for the bytes from `byte` on
unfoldable pub store_bytes : ℕ → ℕ → ℕ → ℕ → List ℕ → List ℕ
store_bytes zero byte byte_offset value bytes = bytes
store_bytes (suc n) byte byte_offset value bytes =
    store_bytes n (byte + 1) byte_offset value
      (set bytes (byte_offset + byte) (bit_and (shift_right value (byte * 8)) 0xFF))

-- `window |= bytes_[byte_offset + byte] << (byte * 8)` for the bytes from `byte` on
unfoldable pub load_bytes : ℕ → ℕ → ℕ → List ℕ → ℕ → ℕ
load_bytes zero byte byte_offset bytes window = window
load_bytes (suc n) byte byte_offset bytes window =
    load_bytes n (byte + 1) byte_offset bytes
      (bit_or window (shift_left (get_or bytes (byte_offset + byte) 0) (byte * 8)))

-- The loop over single bits, from `bit` on.
unfoldable pub overwrite_each_bit : ℕ → ℕ → ℕ → ℕ → List ℕ → List ℕ
overwrite_each_bit zero bit bit_offset value bytes = bytes
overwrite_each_bit (suc n) bit bit_offset value bytes =
    let target = bit_offset + bit in
    overwrite_each_bit n (bit + 1) bit_offset value (
      set bytes (target / 8) (
        put_bit (get_or bytes (target / 8) 0) (target % 8)
          (bit_and (shift_right value bit) 1 == 1)))

unfoldable pub overwritten : List ℕ → ℕ → ℕ → ℕ → List ℕ
overwritten bytes bit_offset value num_bits =
    let bit_shift = bit_offset % 8 in
    let byte_offset = bit_offset / 8 in
    let touched_bytes = (bit_shift + num_bits + 7) / 8 in
    let value_mask = if num_bits == 64 then 2 ^ 64 - 1 else 2 ^ num_bits - 1 in
    let mask = shift_left value_mask bit_shift in
    if bit_shift == 0 && num_bits % 8 == 0
    then store_bytes (num_bits / 8) 0 byte_offset value bytes
    else if leb touched_bytes 8
    then store_bytes touched_bytes 0 byte_offset
        (bit_or (bit_and (load_bytes touched_bytes 0 byte_offset bytes 0) (not64 mask))
          (shift_left (bit_and value value_mask) bit_shift))
        bytes
    else overwrite_each_bit num_bits 0 bit_offset value bytes

unfoldable pub overwrite_unsigned_bits : BitBuffer → ℕ → ℕ → ℕ → Result BitBuffer
overwrite_unsigned_bits b bit_offset value num_bits =
    throw_if (ltb 64 num_bits) Error.invalid_argument
    >> (throw_if (ltb b.bit_size bit_offset || ltb (b.bit_size - bit_offset) num_bits)
          Error.out_of_range
        >> (if num_bits == 0
            then ok b
            else ok (record {
              bytes = overwritten b.bytes bit_offset value num_bits;
              bit_size = b.bit_size;
              read_bit = b.read_bit;
            })))

-- `write_bits(byte, 8)` for each byte
unfoldable pub write_each_byte : BitBuffer → List ℕ → Result BitBuffer
write_each_byte b [] = ok b
write_each_byte b (byte ∷ rest) = write_unsigned_bits b byte 8 >>= λ c. write_each_byte c rest

-- The data is given as the bytes that the pointer leads to, and is there.
unfoldable pub write_bytes : BitBuffer → List ℕ → Result BitBuffer
write_bytes b data_bytes =
    if length data_bytes == 0
    then ok b
    else if b.bit_size % 8 == 0
    then ok (record {
      bytes = b.bytes ++ data_bytes;
      bit_size = b.bit_size + length data_bytes * 8;
      read_bit = b.read_bit;
    })
    else write_each_byte b data_bytes

-- The bit with this number in the bytes
unfoldable pub test_bit : List ℕ → ℕ → Bool
test_bit bytes bit = if bit_and (get_or bytes (bit / 8) 0) (2 ^ (bit % 8)) == 0 then false else true

unfoldable pub write_each_bit : ℕ → ℕ → List ℕ → BitBuffer → BitBuffer
write_each_bit zero bit source b = b
write_each_bit (suc n) bit source b =
    write_each_bit n (bit + 1) source (write_bool b (test_bit source bit))

unfoldable pub write_buffer_bits : BitBuffer → BitBuffer → BitBuffer
write_buffer_bits b source =
    if source.bit_size == 0
    then b
    else if b.bit_size % 8 == 0
    then record {
      bytes = b.bytes ++ source.bytes;
      bit_size = b.bit_size + source.bit_size;
      read_bit = b.read_bit;
    }
    else write_each_bit source.bit_size 0 source.bytes b
