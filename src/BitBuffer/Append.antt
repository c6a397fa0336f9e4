-- ===== src/BitBuffer/Append.antt =====
-- `write_buffer_bits`, over whole bytes where the buffer ends at one, else bit by bit.
use ashiato.Base.{
  ℕ, zero, suc, ◌+◌, ◌-◌, ◌*◌, ◌/◌, ◌%◌, ◌<◌, ◌≡◌, ◌∙◌, refl, ap, false, ◌==◌, ltb, List, ◌++◌,
  arith, length, get_or, length-append, Bool-cases, inl, inr, ==_iff,
}
use ashiato.Base.Reads.{get_or-append}
use ashiato.BitBuffer.{BitBuffer}
use ashiato.BitBuffer.Write.{write_bool, test_bit, write_each_bit, write_buffer_bits}
use ashiato.BitBuffer.Bits.{IsValid, Wrote, write_bool_lem}

-- `c` is `b` and then the `n` bits of the source from this one on.
pub record Copied (b : BitBuffer) (source : List ℕ) (bit n : ℕ) (c : BitBuffer) : Type 0 where
  pub valid : IsValid c
  pub size : c.bit_size ≡ b.bit_size + n
  pub reads : c.read_bit ≡ b.read_bit
  pub old : (k : ℕ) → k < b.bit_size → test_bit c.bytes k ≡ test_bit b.bytes k
  pub fresh : (k : ℕ) → k < n → test_bit c.bytes (b.bit_size + k) ≡ test_bit source (bit + k)

write_each_bit_lem :
    (n bit : ℕ) (source : List ℕ) (b : BitBuffer)
    → IsValid b
    → Copied b source bit n (write_each_bit n bit source b)
unfolding write_each_bit
write_each_bit_lem zero bit source b h = record {
  valid = h;
  size = omega arith;
  reads = refl;
  old = λ k lt. refl;
  fresh = λ k lt. absurd (omega arith);
}
write_each_bit_lem (suc n) bit source b h =
    let one : Wrote b (test_bit source bit) (write_bool b (test_bit source bit)) =
      write_bool_lem b (test_bit source bit) h in
    let all : Copied (write_bool b (test_bit source bit)) source (bit + 1) n
        (write_each_bit n (bit + 1) source (write_bool b (test_bit source bit))) =
      write_each_bit_lem n (bit + 1) source (write_bool b (test_bit source bit)) one.valid in
    let result : List ℕ =
      (write_each_bit n (bit + 1) source (write_bool b (test_bit source bit))).bytes in
    let first : test_bit result b.bit_size ≡ test_bit source bit =
      all.old b.bit_size (omega (arith, one.size))
      ∙ one.bits b.bit_size (omega arith)
      ∙ ground arith in
    record {
      valid = all.valid;
      size = omega (arith, all.size, one.size);
      reads = all.reads ∙ one.reads;
      old = λ k lt. all.old k (omega (arith, one.size)) ∙ one.bits k (omega arith) ∙ ground arith;
      fresh = λ k lt. elim (Bool-cases (k == 0)) [
        | inl start ↦
            ap (test_bit result) (ground arith) ∙ first ∙ ap (test_bit source) (ground arith)
        | inr later ↦
            ap (test_bit result) (ground (arith, one.size))
            ∙ all.fresh (k - 1) (ground arith)
            ∙ ap (test_bit source) (ground arith)
      ];
    }

test_bit-in : (xs ys : List ℕ) (k : ℕ) → k / 8 < length xs → test_bit (xs ++ ys) k ≡ test_bit xs k
unfolding test_bit
test_bit-in xs ys k h = rw (get_or-append xs ys (k / 8) 0) (ground arith)

test_bit-after :
    (xs ys : List ℕ) (n k : ℕ) → n ≡ length xs * 8 → test_bit (xs ++ ys) (n + k) ≡ test_bit ys k
unfolding test_bit
test_bit-after xs ys n k e =
    rw (get_or-append xs ys ((n + k) / 8) 0, past, same_byte, same_bit) refl
  where
    past : ltb ((n + k) / 8) (length xs) ≡ false
    past = ground arith

    same_byte : (n + k) / 8 - length xs ≡ k / 8
    same_byte = omega arith

    same_bit : (n + k) % 8 ≡ k % 8
    same_bit = omega arith

byte-append :
    (xs ys : List ℕ) (i : ℕ)
    → ((j : ℕ) → get_or xs j 0 < 256)
    → ((j : ℕ) → get_or ys j 0 < 256)
    → get_or (xs ++ ys) i 0 < 256
byte-append xs ys i hx hy = rw (get_or-append xs ys i 0) (ground (arith, hx i, hy (i - length xs)))

-- Appending a valid buffer to a valid one gives a valid one with the bits of the first and then
-- those of the second, whether bytes or single bits are copied; the read position stays.
pub write_buffer_bits_lem :
    (b source : BitBuffer)
    → IsValid b
    → IsValid source
    → Copied b source.bytes 0 source.bit_size (write_buffer_bits b source)
unfolding write_buffer_bits
write_buffer_bits_lem b source h s = elim (Bool-cases (source.bit_size == 0)) [
  | inl none_there ↦ simp none_there record {
    valid = h;
    size = ground arith;
    reads = refl;
    old = λ k lt. refl;
    fresh = λ k lt. absurd (ground arith);
  }
  | inr some_there ↦ elim (Bool-cases (b.bit_size % 8 == 0)) [
    | inl aligned ↦
        let e : b.bit_size ≡ length b.bytes * 8 = omega (arith, h.size, (==_iff _ _).0 aligned) in
        simp (some_there, aligned)
          record {
            valid = record {
              size = omega (arith, length-append b.bytes source.bytes, h.size, s.size, e);
              byte = λ i. byte-append b.bytes source.bytes i h.byte s.byte;
              reads = omega (arith, h.reads);
            };
            size = refl;
            reads = refl;
            old = λ k lt. test_bit-in b.bytes source.bytes k (omega arith);
            fresh = λ k lt.
                test_bit-after b.bytes source.bytes b.bit_size k e
                ∙ ap (test_bit source.bytes) (omega arith);
          }
    | inr across ↦ simp (some_there, across) (write_each_bit_lem source.bit_size 0 source.bytes b h)
  ]
]
