-- ===== src/Snapshots/Frames/RoundTrip.antt =====
-- A frame of src/snapshot.cpp is read back as it was written.
use ashiato.Base.{
  ℕ, ◌+◌, ◌*◌, ◌/◌, ◌%◌, ◌^◌, ◌<◌, ◌≡◌, refl, sym, ap, ◌∙◌, false, ◌==◌, ltb, if◌then◌else◌, List,
  [], ◌∷◌, ◌++◌, length, length-append, ok, err, runtime_error, ==_self, ==_iff, Bool-cases, inl,
  inr, arith,
}
use mathlib.Core.Path.{subst}
use ashiato.BitBuffer.{BitBuffer, byte_size, assign_bytes, clear_unused_tail_bits, reset_read}
use ashiato.Snapshots.Frames.{
  persistent_magic, persistent_version, first_bytes, later_bytes, read_exact, bytes_of, value_of,
  write_u32_le, write_u64_le, read_u32_le, read_u64_le, write_frame, expect, read_buffer,
  read_frame,
}

first_bytes-append : (xs ys : List ℕ) → first_bytes (length xs) (xs ++ ys) ≡ xs
first_bytes-append [] ys = refl
first_bytes-append (x ∷ xs) ys = ap (λ t. x ∷ t) (first_bytes-append xs ys)

later_bytes-append : (xs ys : List ℕ) → later_bytes (length xs) (xs ++ ys) ≡ ys
later_bytes-append [] ys = refl
later_bytes-append (x ∷ xs) ys = later_bytes-append xs ys

read_exact-append : (xs ys : List ℕ) → read_exact (length xs) (xs ++ ys) ≡ ok (xs, ys)
unfolding read_exact
read_exact-append xs ys =
    let there : ltb (length (xs ++ ys)) (length xs) ≡ false = ground (arith, length-append xs ys) in
    simp (there, first_bytes-append xs ys, later_bytes-append xs ys) refl

value_of-u32 : (v : ℕ) → v < 2 ^ 32 → value_of (bytes_of 4 0 v) 0 ≡ v
unfolding value_of bytes_of
value_of-u32 v h = omega arith

value_of-u64 : (v : ℕ) → v < 2 ^ 64 → value_of (bytes_of 8 0 v) 0 ≡ v
unfolding value_of bytes_of
value_of-u64 v h = omega arith

read-write_u32 :
    (v : ℕ) (rest : List ℕ) → v < 2 ^ 32 → read_u32_le (write_u32_le v ++ rest) ≡ ok (v, rest)
unfolding read_u32_le write_u32_le bytes_of
read-write_u32 v rest h = simp (read_exact-append (bytes_of 4 0 v) rest, value_of-u32 v h) refl

read-write_u64 :
    (v : ℕ) (rest : List ℕ) → v < 2 ^ 64 → read_u64_le (write_u64_le v ++ rest) ≡ ok (v, rest)
unfolding read_u64_le write_u64_le bytes_of
read-write_u64 v rest h = simp (read_exact-append (bytes_of 8 0 v) rest, value_of-u64 v h) refl

expect-write : (v : ℕ) (rest : List ℕ) → v < 2 ^ 32 → expect v (write_u32_le v ++ rest) ≡ ok rest
unfolding expect
expect-write v rest h = simp (read-write_u32 v rest h, ==_self v) refl

expect-other :
    (v w : ℕ) (rest : List ℕ)
    → v < 2 ^ 32
    → (v == w) ≡ false
    → expect w (write_u32_le v ++ rest) ≡ err runtime_error
unfolding expect
expect-other v w rest h apart = simp (read-write_u32 v rest h, apart) refl

first_bytes-all : (xs : List ℕ) → first_bytes (length xs) xs ≡ xs
first_bytes-all [] = refl
first_bytes-all (x ∷ xs) = ap (λ t. x ∷ t) (first_bytes-all xs)

-- What stands behind the header.
read_body :
    (body : BitBuffer) (rest : List ℕ)
    → length body.bytes ≡ byte_size body
    → body.bit_size + 7 < 2 ^ 64
    → clear_unused_tail_bits body.bytes body.bit_size ≡ body.bytes
    → read_buffer body.bit_size (first_bytes (byte_size body) body.bytes ++ rest)
      ≡ ok (reset_read body, rest)
unfolding read_buffer byte_size assign_bytes reset_read
read_body body rest whole small tidy =
    let size : (body.bit_size + 7) % 2 ^ 64 / 8 ≡ length body.bytes = omega (arith, whole) in
    let given : first_bytes ((body.bit_size + 7) / 8) body.bytes ≡ body.bytes =
      ap (λ n. first_bytes n body.bytes) (sym whole) ∙ first_bytes-all body.bytes in
    let room : ltb (length body.bytes * 8) body.bit_size ≡ false = ground (arith, whole) in
    simp (size, given, read_exact-append body.bytes rest, room, tidy) refl

-- The parts of a frame, one after the other.
frame-parts :
    (kind : ℕ) (body : BitBuffer) (rest : List ℕ)
    → write_frame kind body ++ rest
      ≡ write_u32_le persistent_magic
        ++ (write_u32_le persistent_version
            ++ (write_u32_le kind
                ++ (write_u64_le body.bit_size
                    ++ (first_bytes (byte_size body) body.bytes ++ rest))))
unfolding write_frame write_u32_le write_u64_le bytes_of
frame-parts kind body rest = refl

-- A frame that was written is read back, whatever follows it in the stream, and where a frame of another
-- kind is wanted it is refused with a runtime error. The buffer is one whose bytes are exactly those of
-- its bits, with the unused bits of the last byte cleared; afterwards it is read from its beginning.
pub write_frame-read_frame :
    (kind wanted : ℕ) (body : BitBuffer) (rest : List ℕ)
    → kind < 2 ^ 32
    → length body.bytes ≡ byte_size body
    → body.bit_size + 7 < 2 ^ 64
    → clear_unused_tail_bits body.bytes body.bit_size ≡ body.bytes
    → read_frame wanted (write_frame kind body ++ rest)
      ≡ (if kind == wanted then ok (reset_read body, rest) else err runtime_error)
unfolding read_frame
write_frame-read_frame kind wanted body rest k whole small tidy =
    ap (read_frame wanted) (frame-parts kind body rest)
    ∙ simp
        (
          expect-write persistent_magic _ (omega arith),
          expect-write persistent_version _ (omega arith),
        )
        (elim (Bool-cases (kind == wanted)) [
          | inl same ↦
              simp
                (
                  same,
                  subst (λ x. expect x (write_u32_le kind ++ tail) ≡ ok tail)
                      ((==_iff kind wanted).0 same) (expect-write kind tail k),
                  read-write_u64 body.bit_size (first_bytes (byte_size body) body.bytes ++ rest)
                      (omega (arith, small)),
                  read_body body rest whole small tidy,
                )
                refl
          | inr apart ↦ simp (apart, expect-other kind wanted tail k apart) refl
        ])
  where
    tail : List ℕ
    tail = write_u64_le body.bit_size ++ (first_bytes (byte_size body) body.bytes ++ rest)
