-- ===== src/Storage/Swap.antt =====
-- src/storage.cpp: exchanging two dense entries, as the groups do.
use ashiato.Base.{
  ℕ, ◌||◌, ◌==◌, leb, if◌then◌else◌, List, get_or, get_elem?, set, none, some, Result, ok, err,
  out_of_range,
}
use ashiato.Storage.{Storage, npos, dense_index_at, dense_position}

-- The exchange of two values through a temporary.
unfoldable pub swap_values {ℓ} : {V : Type ℓ} → ℕ → ℕ → List V → List V
swap_values lhs rhs values = elim (get_elem? values lhs) [
  | none ↦ values
  | some a ↦ elim (get_elem? values rhs) [ none ↦ values | some b ↦ set (set values lhs b) rhs a ]
]

module _ {V : Type 0} where
  -- The exchange of everything that the two entries hold.
  unfoldable pub swap_entries : ℕ → ℕ → Storage V → Storage V
  swap_entries lhs rhs s = record s {
    values = if s.info.tag then s.values else swap_values lhs rhs s.values;
    dense_indices = set (set s.dense_indices lhs (dense_index_at s rhs)) rhs (dense_index_at s lhs);
    sparse = set (set s.sparse (dense_index_at s lhs) rhs) (dense_index_at s rhs) lhs;
    dirty = set (set s.dirty lhs (get_or s.dirty rhs 0)) rhs (get_or s.dirty lhs 0);
    added = set (set s.added lhs (get_or s.added rhs 0)) rhs (get_or s.added lhs 0);
  }

  unfoldable pub swap_dense : ℕ → ℕ → Storage V → Result (Storage V)
  swap_dense lhs rhs s =
      if lhs == rhs
      then ok s
      else if leb s.size lhs || leb s.size rhs
      then err out_of_range
      else ok (swap_entries lhs rhs s)

  unfoldable pub move_index_to_dense : ℕ → ℕ → Storage V → Result (Storage V)
  move_index_to_dense index dense s =
      if dense_position s index == npos then ok s else swap_dense (dense_position s index) dense s
