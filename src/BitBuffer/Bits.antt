-- ===== src/BitBuffer/Bits.antt =====
-- What `write_bool` and `read_bool` do to the bits of a buffer.
use ashiato.Base.{
  ℕ, zero, suc, ◌+◌, ◌/◌, ◌%◌, ◌^◌, ◌<◌, ◌≤◌, ◌≡◌, ◌∙◌, refl, Bool, true, false, ◌&&◌, ◌==◌, ltb,
  ltb→lt, ap, sym, if◌then◌else◌, List, arith, length, get_or, set, push_back, length-set,
  length-push_back, Bool-cases, inl, inr, ==_iff,
}
use Prim.Native.Nat.{bit_and}
use ashiato.Base.Reads.{get_or-set, get_or-past, get_or-push_back}
use ashiato.BitBuffer.{BitBuffer}
use ashiato.BitBuffer.Write.{put_bit, write_bool, test_bit}

-- One byte: over its 256 values, by evaluation.
bit_of : ℕ → ℕ → Bool
bit_of byte bit = if bit_and byte (2 ^ bit) == 0 then false else true

same : Bool → Bool → Bool
same true b = b
same false true = false
same false false = true

-- The test holds of all numbers below the bound.
passes : (ℕ → Bool) → ℕ → Bool
passes test zero = true
passes test (suc last) = if test last then passes test last else false

test_of_passes :
    (test : ℕ → Bool) (bound n : ℕ) → n < bound → passes test bound ≡ true → test n ≡ true
unfolding passes
test_of_passes test zero n inside all = absurd (omega arith)
test_of_passes test (suc last) n inside all =
    let earlier : n < last → passes test last ≡ true → test n ≡ true = test_of_passes test last n in
    elim (Bool-cases (test last)) [
      | inl good ↦ elim (Bool-cases (n == last)) [
        | inl here ↦ ap test ((==_iff n last).0 here) ∙ good
        | inr there ↦ earlier (ground arith) (ground arith)
      ]
      | inr bad ↦ absurd (ground arith)
    ]

put_right : Bool → ℕ → ℕ → ℕ → Bool
put_right v x k j =
    ltb (put_bit x k v) 256 && same (bit_of (put_bit x k v) j) (if j == k then v else bit_of x j)

-- For all bytes, all bits that are put and all bits that are looked at.
put_right_byte : Bool → ℕ → Bool
put_right_byte v x = passes (λ k. passes (λ j. put_right v x k j) 8) 8

put_table : (v : Bool) → passes (put_right_byte v) 256 ≡ true
unfolding passes put_right put_bit bit_of same put_right_byte
put_table true = refl
put_table false = refl

put_right-lem : (v : Bool) (x k j : ℕ) → x < 256 → k < 8 → j < 8 → put_right v x k j ≡ true
unfolding put_right_byte
put_right-lem v x k j hx hk hj =
    test_of_passes _ 8 j hj
      (test_of_passes _ 8 k hk (test_of_passes (put_right_byte v) 256 x hx (put_table v)))

same-eq : (a b : Bool) → same a b ≡ true → a ≡ b
unfolding same
same-eq true b h = sym h
same-eq false true h = cc
same-eq false false h = refl

and_left : (a b : Bool) → (a && b) ≡ true → (a ≡ true) × (b ≡ true)
and_left true b h = (refl, h)
and_left false b h = absurd (ground arith)

bit_of-put_bit :
    (v : Bool) (x k j : ℕ)
    → x < 256
    → k < 8
    → j < 8
    → bit_of (put_bit x k v) j ≡ (if j == k then v else bit_of x j)
unfolding put_right
bit_of-put_bit v x k j hx hk hj = same-eq _ _ (and_left _ _ (put_right-lem v x k j hx hk hj)).1

put_bit-bound : (v : Bool) (x k : ℕ) → x < 256 → k < 8 → put_bit x k v < 256
unfolding put_right
put_bit-bound v x k hx hk = ltb→lt _ _ (and_left _ _ (put_right-lem v x k 0 hx hk (omega arith))).0

-- The bytes are as many as the bits need, each is a byte, and no more is read than was written.
pub record IsValid (b : BitBuffer) : Type 0 where
  pub size : length b.bytes ≡ (b.bit_size + 7) / 8
  pub byte : (i : ℕ) → get_or b.bytes i 0 < 256
  pub reads : b.read_bit ≤ b.bit_size

test_bit-bit_of :
    (bytes : List ℕ) (k : ℕ) → test_bit bytes k ≡ bit_of (get_or bytes (k / 8) 0) (k % 8)
unfolding test_bit bit_of
test_bit-bit_of bytes k = refl

-- The byte for the next bit is there.
grown : List ℕ → ℕ → List ℕ
grown bytes n = if n % 8 == 0 then push_back bytes 0 else bytes

get_or-grown : (bytes : List ℕ) (n i : ℕ) → get_or (grown bytes n) i 0 ≡ get_or bytes i 0
unfolding grown
get_or-grown bytes n i = elim (Bool-cases (n % 8 == 0)) [
  | inl full ↦ rw (full, get_or-push_back bytes 0 i 0) (ground (arith, get_or-past bytes i 0))
  | inr part ↦ rw part refl
]

length-grown :
    (bytes : List ℕ) (n : ℕ) → length bytes ≡ (n + 7) / 8 → length (grown bytes n) ≡ (n + 1 + 7) / 8
unfolding grown
length-grown bytes n e = elim (Bool-cases (n % 8 == 0)) [
  | inl full ↦ simp full (omega (arith, e, length-push_back bytes 0, (==_iff _ _).0 full))
  | inr part ↦ simp part (ground arith)
]

-- What `write_bool` does to a buffer: the bit comes after all others, which stay.
pub record Wrote (b : BitBuffer) (value : Bool) (c : BitBuffer) : Type 0 where
  pub valid : IsValid c
  pub size : c.bit_size ≡ b.bit_size + 1
  pub reads : c.read_bit ≡ b.read_bit
  pub bits :
      (k : ℕ)
      → k ≤ b.bit_size
      → test_bit c.bytes k ≡ (if k == b.bit_size then value else test_bit b.bytes k)

module _ (b : BitBuffer) (value : Bool) (h : IsValid b) where
  wide : List ℕ
  wide = grown b.bytes b.bit_size

  at_end : ℕ
  at_end = b.bit_size / 8

  changed : ℕ
  changed = put_bit (get_or wide at_end 0) (b.bit_size % 8) value

  in_wide : at_end < length wide
  unfolding at_end wide
  in_wide = omega (arith, length-grown b.bytes b.bit_size h.size)

  old_byte : get_or wide at_end 0 < 256
  unfolding wide
  old_byte = rw (get_or-grown b.bytes b.bit_size at_end) (h.byte at_end)

  written-byte :
      (i : ℕ)
      → get_or (set wide at_end changed) i 0 ≡ (if at_end == i then changed else get_or b.bytes i 0)
  unfolding wide
  written-byte i =
      get_or-set wide at_end i changed 0 in_wide ∙ rw (get_or-grown b.bytes b.bit_size i) refl

  written-bit :
      (k : ℕ)
      → test_bit (set wide at_end changed) k
        ≡ (if k == b.bit_size then value else test_bit b.bytes k)
  unfolding at_end changed
  written-bit k =
      rw
        (
          test_bit-bit_of (set wide at_end changed) k,
          test_bit-bit_of b.bytes k,
          written-byte (k / 8),
        )
        (elim (Bool-cases (at_end == k / 8)) [
          | inl here ↦
              rw
                (
                  here,
                  bit_of-put_bit value (get_or wide at_end 0) (b.bit_size % 8) (k % 8) old_byte
                      (omega arith) (omega arith),
                  get_or-wide,
                )
                (ground (arith, ap (λ i. get_or b.bytes i 0) ((==_iff at_end (k / 8)).0 here)))
          | inr there ↦ ground arith
        ])
    where
      get_or-wide : get_or wide at_end 0 ≡ get_or b.bytes at_end 0
      get_or-wide = unfold wide in get_or-grown b.bytes b.bit_size at_end

  written-size : length (set wide at_end changed) ≡ (b.bit_size + 1 + 7) / 8
  unfolding wide
  written-size = length-set wide at_end changed ∙ length-grown b.bytes b.bit_size h.size

  written-bound : (i : ℕ) → get_or (set wide at_end changed) i 0 < 256
  unfolding changed
  written-bound i = rw (written-byte i) (
      ground (
        arith,
        h.byte i,
        put_bit-bound value (get_or wide at_end 0) (b.bit_size % 8) old_byte (omega arith),
      ))

  -- A valid buffer stays valid under `write_bool`, and holds the bits it held and then the new one.
  pub write_bool_lem : Wrote b value (write_bool b value)
  unfolding write_bool
  write_bool_lem = record {
    valid = record {
      size = unfold wide grown changed at_end in written-size;
      byte = λ i. unfold wide grown changed at_end in written-bound i;
      reads = omega (arith, h.reads);
    };
    size = refl;
    reads = refl;
    bits = λ k le. unfold wide grown changed at_end in written-bit k;
  }
