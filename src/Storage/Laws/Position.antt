-- ===== src/Storage/Laws/Position.antt =====
-- Where `move_index_to_dense` leaves each index: what it comes to for `dense_position`.
use ashiato.Base.{
  ℕ, ◌<◌, ◌≡◌, sym, ap, ◌∙◌, true, false, ◌==◌, arith, if◌then◌else◌, Bool-cases, inl, inr,
}
use ashiato.Storage.{Storage, npos, sparse_at, dense_index_at, contains, dense_position}
use ashiato.Storage.Laws.Invariant.{IsDense, contains-at, dense-contains}
use ashiato.Storage.Laws.Swap.{Reordered, exchanged}

module _ {V : Type 0} where
  -- A position below the size is that of an index that is contained, and leads back to it.
  pub position-at :
      (s : Storage V) (j : ℕ)
      → IsDense s
      → dense_position s j < s.size
      → (contains s j ≡ true) × (dense_index_at s (dense_position s j) ≡ j)
  unfolding dense_position
  position-at s j w h = elim (Bool-cases (contains s j)) [
    | inl there ↦ (there, simp there (contains-at s j w there).1)
    | inr missing ↦ absurd (ground (arith, w.small))
  ]

  pub position-inside :
      (s : Storage V) (j : ℕ) → IsDense s → contains s j ≡ true → dense_position s j < s.size
  unfolding dense_position
  position-inside s j w there = simp there (contains-at s j w there).0

  pub position-missing : (s : Storage V) (j : ℕ) → contains s j ≡ false → dense_position s j ≡ npos
  unfolding dense_position
  position-missing s j missing = simp missing

  -- A dense entry stands at its position.
  pub position-dense :
      (s : Storage V) (d : ℕ) → IsDense s → d < s.size → dense_position s (dense_index_at s d) ≡ d
  unfolding dense_position
  position-dense s d w h = simp (dense-contains s d w h) (w.inverse d h)

  position-sparse :
      (s : Storage V) (j : ℕ) → contains s j ≡ true → dense_position s j ≡ sparse_at s j
  unfolding dense_position
  position-sparse s j there = simp there

  stands-at :
      (s : Storage V) (j d : ℕ)
      → IsDense s
      → d < s.size
      → dense_index_at s d ≡ j
      → dense_position s j ≡ d
  stands-at s j d w h e = ap (dense_position s) (sym e) ∙ position-dense s d w h

  -- After the move of `i` to `target`, the index that stood there stands where `i` did.
  pub position-moved :
      (s s' : Storage V) (i target j : ℕ)
      → IsDense s
      → contains s i ≡ true
      → target < s.size
      → Reordered s s' (exchanged s (sparse_at s i) target)
      → dense_position s' j ≡ (
          if j == i
          then target
          else if dense_position s j == target
          then dense_position s i
          else dense_position s j)
  position-moved s s' i target j w there inside m = elim (Bool-cases (contains s j)) [
    | inl here ↦
        let back_j : dense_index_at s (dense_position s j) ≡ j =
          (position-at s j w (position-inside s j w here)).1 in
        let back_i : dense_index_at s (dense_position s i) ≡ i =
          (position-at s i w (position-inside s i w there)).1 in
        let where_i : dense_position s i ≡ sparse_at s i = position-sparse s i there in
        let inside_j : dense_position s j < s.size = position-inside s j w here in
        let inside_i : dense_position s i < s.size = position-inside s i w there in
        stands-at s' j _ m.valid.dense (ground (arith, m.same_size))
          (m.order _ ∙ ground (arith, back_i, back_j, where_i))
    | inr missing ↦
        ground (arith, m.holds j, position-missing s j missing, position-missing s' j, w.small)
  ]
