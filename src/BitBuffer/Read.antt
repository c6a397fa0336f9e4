-- ===== src/BitBuffer/Read.antt =====
-- The reads of `BitBuffer`.
use ashiato.Base.{
  ℕ, zero, suc, ◌+◌, ◌-◌, ◌*◌, ◌^◌, ◌%◌, Bool, ◌&&◌, ◌==◌, ltb, if◌then◌else◌, List, [], ◌∷◌,
  length, get_or, Error, Result, ok, throw_if, ◌>>◌, ◌>>=◌,
}
use Prim.Native.Nat.{◌/◌, bit_and, bit_or}
use ashiato.BitBuffer.{BitBuffer, shift_right, shift_left, ensure_can_read}
use ashiato.BitBuffer.Write.{test_bit, write_bool, write_bytes, load_bytes}

abbrev pub advanced : BitBuffer → ℕ → BitBuffer
advanced b num_bits = record {
  bytes = b.bytes;
  bit_size = b.bit_size;
  read_bit = b.read_bit + num_bits;
}

unfoldable pub skip_bits : BitBuffer → ℕ → Result BitBuffer
skip_bits b num_bits = ensure_can_read b num_bits >> ok (advanced b num_bits)

unfoldable pub read_bool : BitBuffer → Result (Bool × BitBuffer)
read_bool b = ensure_can_read b 1 >> ok (test_bit b.bytes b.read_bit, advanced b 1)

-- The value of `read_unsigned_bits` where it does not throw.
unfoldable pub bits_at : List ℕ → ℕ → ℕ → ℕ
bits_at bytes read_bit num_bits =
    let bit_shift = read_bit % 8 in
    let byte_offset = read_bit / 8 in
    let available_bytes = length bytes - byte_offset in
    let low = if ltb available_bytes 8 then available_bytes else 8 in
    let bits_from_window = 64 - bit_shift in
    let value = shift_right (load_bytes low 0 byte_offset bytes 0) bit_shift in
    let whole =
      if ltb bits_from_window num_bits
      then bit_or value (shift_left (get_or bytes (byte_offset + 8) 0) bits_from_window)
      else value in
    if read_bit % 8 == 0 && num_bits % 8 == 0
    then load_bytes (num_bits / 8) 0 (read_bit / 8) bytes 0
    else if ltb num_bits 64
    then bit_and whole (2 ^ num_bits - 1)
    else whole

unfoldable pub read_unsigned_bits : BitBuffer → ℕ → Result (ℕ × BitBuffer)
read_unsigned_bits b num_bits =
    throw_if (ltb 64 num_bits) Error.invalid_argument
    >> (if num_bits == 0
        then ok (0, b)
        else (ensure_can_read b num_bits
            >> ok (bits_at b.bytes b.read_bit num_bits, advanced b num_bits)))

-- The `n` bytes from this one on
unfoldable pub bytes_from : ℕ → ℕ → List ℕ → List ℕ
bytes_from zero byte bytes = []
bytes_from (suc n) byte bytes = get_or bytes byte 0 ∷ bytes_from n (byte + 1) bytes

-- `out[index] = read_bits(8)` for each index
unfoldable pub read_each_byte : ℕ → BitBuffer → Result (List ℕ × BitBuffer)
read_each_byte zero b = ok ([], b)
read_each_byte (suc n) b = read_unsigned_bits b 8 >>= λ first.
    read_each_byte n first.1 >>= λ rest. ok (first.0 ∷ rest.0, rest.1)

-- The bytes that are put out; the pointer is there. The product wraps as in the source; where it
-- does, the source copies past the end of its bytes, whose values are open and here 0.
unfoldable pub read_bytes : BitBuffer → ℕ → Result (List ℕ × BitBuffer)
read_bytes b num_bytes =
    if num_bytes == 0
    then ok ([], b)
    else (ensure_can_read b (num_bytes * 8 % 2 ^ 64)
        >> (if b.read_bit % 8 == 0
            then ok
                (bytes_from num_bytes (b.read_bit / 8) b.bytes, advanced b (num_bytes * 8 % 2 ^ 64))
            else read_each_byte num_bytes b))

unfoldable pub copy_each_bit : ℕ → BitBuffer → BitBuffer → Result (BitBuffer × BitBuffer)
copy_each_bit zero b out = ok (b, out)
copy_each_bit (suc n) b out = read_bool b >>= λ r. copy_each_bit n r.1 (write_bool out r.0)

-- The buffer after the read, and `out`.
unfoldable pub read_buffer_bits : BitBuffer → BitBuffer → ℕ → Result (BitBuffer × BitBuffer)
read_buffer_bits b out num_bits =
    ensure_can_read b num_bits
    >> (if num_bits == 0
        then ok (b, out)
        else if b.read_bit % 8 == 0 && out.bit_size % 8 == 0 && num_bits % 8 == 0
        then (write_bytes out (bytes_from (num_bits / 8) (b.read_bit / 8) b.bytes) >>= λ written.
            ok (advanced b num_bits, written))
        else copy_each_bit num_bits b out)
