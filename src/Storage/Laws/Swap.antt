-- ===== src/Storage/Laws/Swap.antt =====
-- `swap_dense` and `move_index_to_dense` reorder the dense entries and nothing else.
use ashiato.Base.{
  ℕ, ◌<◌, ◌≤◌, ◌≡◌, ◌≢◌, refl, ◌∙◌, true, false, ◌||◌, ◌==◌, ltb, leb, arith, if◌then◌else◌, List,
  length, get_or, get_elem?, set, length-set, Bool-cases, inl, inr, ◌⊎◌, ==_iff, ltb→lt, ltb→le, ok,
  err, out_of_range,
}
use ashiato.Base.Reads.{get_or-set, get_elem?-set, get_elem?-inside}
use ashiato.Base.Counting.{count_set, count_set-set}
use ashiato.Storage.{Storage, npos, sparse_at, dense_index_at, contains, dense_position}
use ashiato.Storage.Access.{get, is_dirty}
use ashiato.Storage.Swap.{swap_values, swap_entries, swap_dense, move_index_to_dense}
use ashiato.Storage.Laws.Invariant.{
  IsDense, IsFlagged, IsBuried, IsValid, contains_lem, contains-at, dense_injective, IsBuried-congr,
}
use ashiato.Storage.Laws.Put.{is_dirty_lem}

-- Exchanging two flags keeps the number that are set.
count_set-swap :
    (xs : List ℕ) (a b : ℕ)
    → a < length xs
    → b < length xs
    → count_set (set (set xs a (get_or xs b 0)) b (get_or xs a 0)) ≡ count_set xs
count_set-swap xs a b ha hb = ground (
  arith,
  count_set-set xs a (get_or xs b 0),
  count_set-set (set xs a (get_or xs b 0)) b (get_or xs a 0),
  length-set xs a (get_or xs b 0),
  get_or-set xs a b (get_or xs b 0) 0,
)

length-swap : (xs : List ℕ) (a b x y : ℕ) → length (set (set xs a x) b y) ≡ length xs
length-swap xs a b x y = omega (arith, length-set xs a x, length-set (set xs a x) b y)

get_or-swap :
    (xs : List ℕ) (a b x y j d : ℕ)
    → a < length xs
    → b < length xs
    → get_or (set (set xs a x) b y) j d
      ≡ (if j == b then y else if j == a then x else get_or xs j d)
get_or-swap xs a b x y j d ha hb =
    ground (arith, get_or-set (set xs a x) b j y d, get_or-set xs a j x d, length-set xs a x)

module _ {V : Type 0} (s : Storage V) (a b : ℕ) (w : IsValid s) (ha : a < s.size)
    (hb : b < s.size) where
  t : Storage V
  t = swap_entries a b s

  -- The indices and positions after the exchange.
  dense-swapped :
      (j : ℕ)
      → dense_index_at t j ≡ (
          if j == b
          then dense_index_at s a
          else if j == a
          then dense_index_at s b
          else dense_index_at s j)
  unfolding t swap_entries
  dense-swapped j =
      get_or-swap s.dense_indices a b (dense_index_at s b) (dense_index_at s a) j npos
        (omega (arith, w.dense.dense_length)) (omega (arith, w.dense.dense_length))

  sparse-swapped :
      (j : ℕ)
      → sparse_at t j ≡ (
          if j == dense_index_at s b
          then a
          else if j == dense_index_at s a
          then b
          else sparse_at s j)
  unfolding t swap_entries
  sparse-swapped j =
      get_or-swap s.sparse (dense_index_at s a) (dense_index_at s b) b a j npos
        (w.dense.dense_inside a ha) (w.dense.dense_inside b hb)

  dirty-swapped :
      (j : ℕ)
      → get_or t.dirty j 0 ≡ (
          if j == b
          then get_or s.dirty a 0
          else if j == a
          then get_or s.dirty b 0
          else get_or s.dirty j 0)
  unfolding t swap_entries
  dirty-swapped j =
      get_or-swap s.dirty a b (get_or s.dirty b 0) (get_or s.dirty a 0) j 0
        (omega (arith, w.flagged.dirty_length)) (omega (arith, w.flagged.dirty_length))

  values-swapped :
      s.info.tag ≡ false
      → (length t.values ≡ length s.values)
        × ((j : ℕ)
            → get_elem? t.values j ≡ (
                if j == b
                then get_elem? s.values a
                else if j == a
                then get_elem? s.values b
                else get_elem? s.values j))
  unfolding t swap_entries swap_values
  values-swapped plain =
      let (x, ex) = get_elem?-inside s.values a (omega (arith, w.dense.value_length plain)) in
      let (y, ey) = get_elem?-inside s.values b (omega (arith, w.dense.value_length plain)) in
      (
        ground (arith, length-set s.values a y, length-set (set s.values a y) b x),
        λ j. ground (
          arith,
          get_elem?-set (set s.values a y) b j x,
          get_elem?-set s.values a j y,
          length-set s.values a y,
          w.dense.value_length,
        ),
      )

  others-swapped :
      (t.size ≡ s.size)
      × (t.info ≡ s.info)
      × (t.compact_lookup ≡ s.compact_lookup)
      × (length t.sparse ≡ length s.sparse)
      × (t.tombstones ≡ s.tombstones)
  unfolding t swap_entries
  others-swapped =
      (refl, refl, refl, length-swap s.sparse (dense_index_at s a) (dense_index_at s b) b a, refl)

  length_swapped : length t.dense_indices ≡ t.size
  unfolding t swap_entries
  length_swapped = length-swap s.dense_indices a b _ _ ∙ w.dense.dense_length

  swapped-IsDense : IsDense t
  swapped-IsDense = record {
    dense_length = length_swapped;
    dense_inside = λ d h. ground (
      arith,
      dense-swapped d,
      others-swapped,
      w.dense.dense_inside d,
      w.dense.dense_inside a,
      w.dense.dense_inside b,
    );
    inverse = λ d h. ground (
      arith,
      dense-swapped d,
      sparse-swapped (dense_index_at t d),
      others-swapped.0,
      dense_injective s a b w.dense ha hb,
      dense_injective s d b w.dense,
      dense_injective s d a w.dense,
      w.dense.inverse d,
    );
    value_length = λ h. ground (arith, values-swapped, others-swapped, w.dense.value_length);
    small = omega (arith, others-swapped, w.dense.small);
  }

  swapped-IsFlagged : IsFlagged t
  unfolding t swap_entries
  swapped-IsFlagged = record {
    dirty_length = length-swap s.dirty a b _ _ ∙ w.flagged.dirty_length;
    added_length = length-swap s.added a b _ _ ∙ w.flagged.added_length;
    dirty_counted =
        ground (arith, count_set-swap s.dirty a b, w.flagged.dirty_length, w.flagged.dirty_counted);
    added_counted =
        ground (arith, count_set-swap s.added a b, w.flagged.added_length, w.flagged.added_counted);
  }

  contains-swapped : (j : ℕ) → contains t j ≡ contains s j
  contains-swapped j =
      rw (contains_lem t j swapped-IsDense, contains_lem s j w.dense)
        (ground (
          arith,
          sparse-swapped j,
          dense-swapped (sparse_at t j),
          others-swapped.0,
          w.dense.inverse a,
          w.dense.inverse b,
        ))

  get-swapped : (j : ℕ) → get t j ≡ get s j
  unfolding get
  get-swapped j = ground (
    arith,
    contains-swapped j,
    others-swapped.1,
    contains_lem s j w.dense,
    sparse-swapped j,
    (λ (p : s.info.tag ≡ false). (values-swapped p).1 (sparse_at t j)),
    w.dense.inverse a,
    w.dense.inverse b,
  )

  is_dirty-swapped : (j : ℕ) → is_dirty t j ≡ is_dirty s j
  is_dirty-swapped j = ground (
    arith,
    is_dirty_lem t j,
    is_dirty_lem s j,
    contains-swapped j,
    contains_lem s j w.dense,
    sparse-swapped j,
    dirty-swapped (sparse_at t j),
    others-swapped.4,
    w.dense.inverse a,
    w.dense.inverse b,
  )

  swapped-IsValid : IsValid t
  swapped-IsValid = record {
    dense = swapped-IsDense;
    flagged = swapped-IsFlagged;
    tombs = same_tombs;
    ordinary = others-swapped.2 ∙ w.ordinary;
  }
    where
      same_tombs : IsBuried t
      same_tombs = unfold t swap_entries in IsBuried-congr s t refl refl refl refl refl w.tombs

module _ {V : Type 0} where
  -- `s'` holds the same components with the same values and marks, in the order that `at` gives.
  pub record Reordered (s s' : Storage V) (at : ℕ → ℕ) : Type 0 where
    pub valid : IsValid s'
    pub same_size : s'.size ≡ s.size
    pub order : (d : ℕ) → dense_index_at s' d ≡ at d
    pub holds : (j : ℕ) → contains s' j ≡ contains s j
    pub reads : (j : ℕ) → get s' j ≡ get s j
    pub marks : (j : ℕ) → is_dirty s' j ≡ is_dirty s j
    pub same_info : s'.info ≡ s.info

  abbrev pub exchanged : Storage V → ℕ → ℕ → ℕ → ℕ
  exchanged s a b j =
      if j == b
      then dense_index_at s a
      else if j == a
      then dense_index_at s b
      else dense_index_at s j

  swap_entries-Reordered :
      (s : Storage V) (a b : ℕ)
      → IsValid s
      → a < s.size
      → b < s.size
      → Reordered s (swap_entries a b s) (exchanged s a b)
  unfolding t
  swap_entries-Reordered s a b w ha hb = record {
    valid = swapped-IsValid s a b w ha hb;
    same_size = (others-swapped s a b w ha hb).0;
    order = dense-swapped s a b w ha hb;
    holds = contains-swapped s a b w ha hb;
    reads = get-swapped s a b w ha hb;
    marks = is_dirty-swapped s a b w ha hb;
    same_info = (others-swapped s a b w ha hb).1;
  }

  -- On a well-formed storage a swap of two positions in range returns a well-formed storage with
  -- exactly these two dense indices exchanged, in which every index is contained, read and dirty
  -- as before; a swap of two different positions, one of them out of range, throws
  -- `std::out_of_range`.
  pub swap_dense_lem :
      (s : Storage V) (a b : ℕ)
      → IsValid s
      → (a < s.size
          → b < s.size
          → (s' : Storage V) × (swap_dense a b s ≡ ok s') × Reordered s s' (exchanged s a b))
        × (a ≢ b → leb s.size a || leb s.size b ≡ true → swap_dense a b s ≡ err out_of_range)
  unfolding swap_dense
  swap_dense_lem s a b w = (
    λ ha hb. elim (Bool-cases (a == b)) [
      | inl same ↦ (
        s,
        simp same,
        record {
          valid = w;
          same_size = refl;
          order = λ d. ground arith;
          holds = λ j. refl;
          reads = λ j. refl;
          marks = λ j. refl;
          same_info = refl;
        },
      )
      | inr other ↦ (swap_entries a b s, ground arith, swap_entries-Reordered s a b w ha hb)
    ],
    λ ne out. ground arith,
  )

  -- Moving an index that is contained to a position in range puts it there.
  pub move_index_to_dense_lem :
      (s : Storage V) (index target : ℕ)
      → IsValid s
      → contains s index ≡ true
      → target < s.size
      → (s' : Storage V) × (move_index_to_dense index target s ≡ ok s')
        × Reordered s s' (exchanged s (sparse_at s index) target)
        × (dense_position s' index ≡ target)
  unfolding move_index_to_dense dense_position
  move_index_to_dense_lem s index target w there b =
      let (inside, back) = contains-at s index w.dense there in
      let (s', run, r) = (swap_dense_lem s (sparse_at s index) target w).0 inside b in
      let found : sparse_at s' index ≡ target =
        ground (arith, r.order target, r.valid.dense.inverse target, r.same_size) in
      (s', ground (arith, w.dense.small), r, ground (arith, r.holds index))

  -- On a well-formed storage `swap_dense` of two positions in range returns a well-formed storage
  -- with exactly these two dense indices exchanged, in which every index is contained, read and
  -- dirty as before. Otherwise it returns the storage as it is, where the two are equal, or throws
  -- `std::out_of_range`.
  pub swap_dense-cases :
      (s : Storage V) (a b : ℕ)
      → IsValid s
      → ((a < s.size)
          × (b < s.size)
          × (s' : Storage V) × (swap_dense a b s ≡ ok s')
          × Reordered s s' (exchanged s a b))
        ⊎ ((a ≡ b) × (swap_dense a b s ≡ ok s))
        ⊎ (((s.size ≤ a) ⊎ (s.size ≤ b)) × (swap_dense a b s ≡ err out_of_range))
  unfolding swap_dense
  swap_dense-cases s a b w = elim (Bool-cases (ltb a s.size)) [
    | inl ha ↦ elim (Bool-cases (ltb b s.size)) [
      | inl hb ↦ inl (
        ltb→lt _ _ ha,
        ltb→lt _ _ hb,
        ((swap_dense_lem s a b w).0 (ltb→lt _ _ ha) (ltb→lt _ _ hb)).0,
        ((swap_dense_lem s a b w).0 (ltb→lt _ _ ha) (ltb→lt _ _ hb)).1,
        ((swap_dense_lem s a b w).0 (ltb→lt _ _ ha) (ltb→lt _ _ hb)).2,
      )
      | inr hb ↦ inr (inr (inr (ltb→le _ _ hb), ground arith))
    ]
    | inr ha ↦ elim (Bool-cases (a == b)) [
      | inl same ↦ inr (inl ((==_iff a b).0 same, simp same refl))
      | inr other ↦ inr (inr (inl (ltb→le _ _ ha), ground arith))
    ]
  ]
