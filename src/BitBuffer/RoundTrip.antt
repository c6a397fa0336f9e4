-- ===== src/BitBuffer/RoundTrip.antt =====
-- Runs of `write_bool` and of `read_bool`.
use ashiato.Base.{
  ℕ, zero, suc, ◌+◌, ◌<◌, ◌≤◌, ◌≡◌, ◌∙◌, refl, sym, ap, Bool, List, [], ◌∷◌, arith, length, Result,
  ok, ◌>>=◌,
}
use mathlib.Core.Path.{subst}
use ashiato.BitBuffer.{BitBuffer, ensure_can_read, remaining_bits}
use ashiato.BitBuffer.Write.{write_bool, test_bit}
use ashiato.BitBuffer.Read.{read_bool, advanced}
use ashiato.BitBuffer.Bits.{IsValid, Wrote, write_bool_lem}

-- `write_bool` for each value in turn
unfoldable pub write_bools : BitBuffer → List Bool → BitBuffer
write_bools b [] = b
write_bools b (value ∷ values) = write_bools (write_bool b value) values

-- `read_bool`, this many times
unfoldable pub read_bools : ℕ → BitBuffer → Result (List Bool × BitBuffer)
read_bools zero b = ok ([], b)
read_bools (suc n) b =
    read_bool b >>= λ first. read_bools n first.1 >>= λ rest. ok (first.0 ∷ rest.0, rest.1)

-- The bits from `k` on are these.
Holds : List ℕ → ℕ → ℕ → List Bool → Type 0
Holds bytes bit_size k [] = k ≤ bit_size
Holds bytes bit_size k (value ∷ values) =
    (k < bit_size) × (test_bit bytes k ≡ value) × Holds bytes bit_size (suc k) values

-- What a run of writes leaves.
record Written (b : BitBuffer) (values : List Bool) (c : BitBuffer) : Type 0 where
  valid : IsValid c
  size : c.bit_size ≡ b.bit_size + length values
  reads : c.read_bit ≡ b.read_bit
  old : (k : ℕ) → k < b.bit_size → test_bit c.bytes k ≡ test_bit b.bytes k
  fresh : Holds c.bytes c.bit_size b.bit_size values

written : (b : BitBuffer) (values : List Bool) → IsValid b → Written b values (write_bools b values)
unfolding write_bools Holds
written b [] h = record {
  valid = h;
  size = omega arith;
  reads = refl;
  old = λ k lt. refl;
  fresh = omega arith;
}
written b (value ∷ values) h =
    let one : Wrote b value (write_bool b value) = write_bool_lem b value h in
    let all : Written (write_bool b value) values (write_bools (write_bool b value) values) =
      written (write_bool b value) values one.valid in
    record {
      valid = all.valid;
      size = omega (arith, all.size, one.size);
      reads = all.reads ∙ one.reads;
      old = λ k lt. all.old k (omega (arith, one.size)) ∙ one.bits k (omega arith) ∙ ground arith;
      fresh = (
        omega (arith, all.size, one.size),
        all.old b.bit_size (omega (arith, one.size))
            ∙ one.bits b.bit_size (omega arith)
            ∙ ground arith,
        subst
            (λ k.
              Holds (write_bools (write_bool b value) values).bytes
                (write_bools (write_bool b value) values).bit_size k values)
            (one.size ∙ omega arith) all.fresh,
      );
    }

read_bool-inside :
    (b : BitBuffer)
    → b.read_bit < b.bit_size
    → read_bool b ≡ ok (test_bit b.bytes b.read_bit, advanced b 1)
unfolding read_bool ensure_can_read remaining_bits
read_bool-inside b h = ground arith

read_bools-held :
    (values : List Bool) (b : BitBuffer)
    → Holds b.bytes b.bit_size b.read_bit values
    → read_bools (length values) b ≡ ok (values, advanced b (length values))
unfolding read_bools Holds
read_bools-held [] b h =
    ap (λ n. ok ([], record { bytes = b.bytes; bit_size = b.bit_size; read_bit = n })) (omega arith)
read_bools-held (value ∷ values) b h =
    rw
      (
        read_bool-inside b h.0,
        read_bools-held values (advanced b 1)
            (subst (λ k. Holds b.bytes b.bit_size k values) (omega arith) h.2),
      )
      (rw h.1 (
        ap
          (λ n.
            ok (value ∷ values, record { bytes = b.bytes; bit_size = b.bit_size; read_bit = n }))
          (omega arith)))

-- Into a valid buffer of which all is read, values are written bit by bit. Then as many reads give
-- these values back, in their order, and nothing is left to read.
pub write_bools-read_bools :
    (b : BitBuffer) (values : List Bool)
    → IsValid b
    → b.read_bit ≡ b.bit_size
    → (read_bools (length values) (write_bools b values)
        ≡ ok (values, advanced (write_bools b values) (length values)))
      × (remaining_bits (advanced (write_bools b values) (length values)) ≡ 0)
      × IsValid (advanced (write_bools b values) (length values))
write_bools-read_bools b values h e =
    let w : Written b values (write_bools b values) = written b values h in
    (
      read_bools-held values (write_bools b values) (
          subst (λ k. Holds (write_bools b values).bytes (write_bools b values).bit_size k values)
            (sym (w.reads ∙ e)) w.fresh),
      unfold remaining_bits in omega (arith, w.size, w.reads),
      record { size = w.valid.size; byte = w.valid.byte; reads = omega (arith, w.size, w.reads) },
    )
