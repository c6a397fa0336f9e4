-- ===== src/Snapshots/Frames.antt =====
-- The frames of the persistent form (src/snapshot.cpp): a header and the bits of a buffer. A stream is
-- the list of its bytes; one that is written to takes them all.
pub mod RoundTrip
use ashiato.Base.{
  ℕ, zero, suc, ◌+◌, ◌-◌, ◌*◌, ◌/◌, ◌%◌, ◌^◌, Bool, true, false, not, ◌==◌, ◌||◌, ltb,
  if◌then◌else◌, List, [], ◌∷◌, ◌++◌, length, Result, ok, err, runtime_error, throw_if, ◌>>◌, ◌>>=◌,
}
use ashiato.BitBuffer.{BitBuffer, byte_size, assign_bytes}
use ashiato.BitBuffer as B

abbrev pub persistent_magic : ℕ
persistent_magic = 1347633989

abbrev pub persistent_version : ℕ
persistent_version = 1

-- The first `size` bytes, and those that come after them
abbrev pub first_bytes : ℕ → List ℕ → List ℕ
first_bytes zero bytes = []
first_bytes (suc n) [] = []
first_bytes (suc n) (byte ∷ bytes) = byte ∷ first_bytes n bytes

abbrev pub later_bytes : ℕ → List ℕ → List ℕ
later_bytes zero bytes = bytes
later_bytes (suc n) [] = []
later_bytes (suc n) (byte ∷ bytes) = later_bytes n bytes

-- What is read, and the rest of the stream.
unfoldable pub read_exact : ℕ → List ℕ → Result (List ℕ × List ℕ)
read_exact size stream =
    throw_if (ltb (length stream) size) runtime_error
    >> ok (first_bytes size stream, later_bytes size stream)

-- `(value >> (index * 8)) & 0xff` for `count` indices from this one on
unfoldable pub bytes_of : ℕ → ℕ → ℕ → List ℕ
bytes_of zero index value = []
bytes_of (suc count) index value = value / 2 ^ (index * 8) % 256 ∷ bytes_of count (index + 1) value

-- The bytes do not overlap, so `|` is `+`.
unfoldable pub value_of : List ℕ → ℕ → ℕ
value_of [] index = 0
value_of (byte ∷ bytes) index = byte * 2 ^ (index * 8) + value_of bytes (index + 1)

unfoldable pub write_u32_le : ℕ → List ℕ
write_u32_le value = bytes_of 4 0 value

unfoldable pub write_u64_le : ℕ → List ℕ
write_u64_le value = bytes_of 8 0 value

unfoldable pub read_u32_le : List ℕ → Result (ℕ × List ℕ)
read_u32_le stream = read_exact 4 stream >>= λ read. ok (value_of read.0 0, read.1)

unfoldable pub read_u64_le : List ℕ → Result (ℕ × List ℕ)
read_u64_le stream = read_exact 8 stream >>= λ read. ok (value_of read.0 0, read.1)

-- What is added to the stream.
unfoldable pub write_frame : ℕ → BitBuffer → List ℕ
write_frame kind body =
    write_u32_le persistent_magic
    ++ write_u32_le persistent_version
    ++ write_u32_le kind
    ++ write_u64_le body.bit_size
    ++ first_bytes (byte_size body) body.bytes

-- One number of the header, with its test.
unfoldable pub expect : ℕ → List ℕ → Result (List ℕ)
expect wanted stream =
    read_u32_le stream >>= λ read. throw_if (not (read.0 == wanted)) runtime_error >> ok read.1

-- The buffer of so many bits.
unfoldable pub read_buffer : ℕ → List ℕ → Result (BitBuffer × List ℕ)
read_buffer bit_size stream = read_exact ((bit_size + 7) % 2 ^ 64 / 8) stream >>= λ bytes.
    assign_bytes B.new bytes.0 bit_size >>= λ body. ok (body, bytes.1)

-- A size of 64 bits fits `std::size_t`.
unfoldable pub read_frame : ℕ → List ℕ → Result (BitBuffer × List ℕ)
read_frame expected_kind stream = expect persistent_magic stream >>= λ after_magic.
    expect persistent_version after_magic >>= λ after_version.
    expect expected_kind after_version >>= λ header.
    read_u64_le header >>= λ size. read_buffer size.0 size.1
