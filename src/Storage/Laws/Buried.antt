-- ===== src/Storage/Laws/Buried.antt =====
-- `mark_tombstone`, `clear_tombstone` and `clear_tombstone_for_entity` keep the list of the
-- tombstones in order, and change the tombstone of one index only.
use ashiato.Base.{
  ℕ, ◌-◌, ◌<◌, ◌≡◌, ◌≢◌, refl, ◌==◌, arith, if◌then◌else◌, length, get_or, set, length-set, ◌∙◌,
}
use ashiato.Base.Reads.{get_or-set, get_or-past}
use native.Mathlib.Decide.{ℕ_discrete}
use ashiato.Storage.{Storage, npos, no_tombstone}
use ashiato.Storage.Tombstones.{tombstone_at, position_of, erase_tombstone_index, clear_tombstone}
use ashiato.Storage.Laws.Invariant.{IsBuried, has_tombstone_lem}
use ashiato.Storage.Laws.Tombs.{
  IsListed, last_index, indices_erased, positions_erased, lengths_erased, kept_erased,
}

module _ {V : Type 0} (s : Storage V) (i : ℕ) (w : IsBuried s) where
  -- The state in which `clear_tombstone` calls `erase_tombstone_index`.
  unmarked : Storage V
  unmarked = record s {
    tombstones = set s.tombstones i no_tombstone;
    tombstone_entities = set s.tombstone_entities i 0;
  }

  module _ (h : tombstone_at s i ≢ no_tombstone) where
    unmarked-IsListed : IsListed unmarked i
    unfolding unmarked
    unmarked-IsListed = record {
      inside = (w.listed i h).0;
      here = (w.listed i h).1;
      back = λ p b. (w.buried p b).1;
      short = w.few;
    }

    cleared : Storage V
    cleared = record (erase_tombstone_index i unmarked) {
      tombstone_count = (erase_tombstone_index i unmarked).tombstone_count - 1;
    }

    i_inside : i < length s.tombstones
    i_inside = ground (arith, get_or-past s.tombstones i no_tombstone)

    tombstone-cleared :
        (j : ℕ) → tombstone_at cleared j ≡ (if j == i then no_tombstone else tombstone_at s j)
    unfolding unmarked cleared
    tombstone-cleared j =
        rw (kept_erased unmarked i unmarked-IsListed).0
          (ground (arith, get_or-set s.tombstones i j no_tombstone no_tombstone, i_inside))

    positions-cleared :
        (j : ℕ)
        → position_of cleared j ≡ (
            if j == i
            then npos
            else if j == last_index s i
            then position_of s i
            else position_of s j)
    unfolding unmarked cleared
    positions-cleared j = positions_erased unmarked i unmarked-IsListed j

    indices-cleared :
        (p : ℕ)
        → p < length s.tombstone_indices - 1
        → get_or cleared.tombstone_indices p npos
          ≡ (if p == position_of s i then last_index s i else get_or s.tombstone_indices p npos)
    unfolding unmarked cleared
    indices-cleared p b = indices_erased unmarked i unmarked-IsListed p b

    lengths-cleared :
        (length cleared.tombstone_indices ≡ length s.tombstone_indices - 1)
        × (length cleared.tombstone_positions ≡ length s.tombstones)
        × (length cleared.tombstone_entities ≡ length s.tombstones)
        × (length cleared.tombstones ≡ length s.tombstones)
        × (cleared.tombstone_count ≡ s.tombstone_count - 1)
    unfolding unmarked cleared
    lengths-cleared =
        let u = unmarked-IsListed in
        let (t, e, c) = kept_erased unmarked i u in
        let (n, p) = lengths_erased unmarked i u in
        (
          n,
          p ∙ w.positions_length,
          rw e (length-set s.tombstone_entities i 0 ∙ w.entities_length),
          rw t (length-set s.tombstones i no_tombstone),
          rw c refl,
        )

    listed-cleared :
        (j : ℕ)
        → tombstone_at cleared j ≢ no_tombstone
        → (position_of cleared j < length cleared.tombstone_indices)
          × (get_or cleared.tombstone_indices (position_of cleared j) npos ≡ j)
    listed-cleared j hj = ground (
      arith,
      tombstone-cleared j,
      positions-cleared j,
      lengths-cleared,
      w.listed i,
      w.listed j,
      w.buried (length s.tombstone_indices - 1),
      indices-cleared (position_of s i),
      indices-cleared (position_of s j),
    )

    buried-cleared :
        (p : ℕ)
        → p < length cleared.tombstone_indices
        → (tombstone_at cleared (get_or cleared.tombstone_indices p npos) ≢ no_tombstone)
          × (position_of cleared (get_or cleared.tombstone_indices p npos) ≡ p)
    buried-cleared p b =
        let q : p < length s.tombstone_indices - 1 = omega (arith, lengths-cleared) in
        rw (indices-cleared p q) (
          ground (
            arith,
            tombstone-cleared (get_or s.tombstone_indices p npos),
            tombstone-cleared (last_index s i),
            positions-cleared (get_or s.tombstone_indices p npos),
            positions-cleared (last_index s i),
            w.listed i,
            w.buried p,
            w.buried (length s.tombstone_indices - 1),
          ))

    cleared-IsBuried : IsBuried cleared
    cleared-IsBuried = record {
      positions_length = omega (arith, lengths-cleared);
      entities_length = omega (arith, lengths-cleared);
      listed = listed-cleared;
      buried = buried-cleared;
      tombstones_counted = omega (arith, lengths-cleared, w.tombstones_counted);
      few = omega (arith, lengths-cleared, w.few);
    }

  clear_tombstone-eq : (h : tombstone_at s i ≢ no_tombstone) → clear_tombstone i s ≡ cleared h
  unfolding clear_tombstone cleared unmarked
  clear_tombstone-eq h = ground (arith, has_tombstone_lem s i)

  clear_tombstone-none : tombstone_at s i ≡ no_tombstone → clear_tombstone i s ≡ s
  unfolding clear_tombstone
  clear_tombstone-none h = ground (arith, has_tombstone_lem s i)

  pub clear_tombstone-IsBuried : IsBuried (clear_tombstone i s)
  clear_tombstone-IsBuried = elim (ℕ_discrete (tombstone_at s i) no_tombstone) [
    | yes e ↦ rw (clear_tombstone-none e) w
    | no h ↦ rw (clear_tombstone-eq h) (cleared-IsBuried h)
  ]

  -- The tombstone of `i` goes, and no other.
  pub tombstone-clear_tombstone :
      (j : ℕ)
      → tombstone_at (clear_tombstone i s) j ≡ (if j == i then no_tombstone else tombstone_at s j)
  tombstone-clear_tombstone j = elim (ℕ_discrete (tombstone_at s i) no_tombstone) [
    | yes e ↦ rw (clear_tombstone-none e) (ground arith)
    | no h ↦ rw (clear_tombstone-eq h) (tombstone-cleared h j)
  ]
