-- ===== src/Snapshots/Create/Entities.antt =====
-- The entities of a snapshot (src/snapshot.cpp and src/ashiato.cpp): those of the registry without the
-- system's own.
use ashiato.Base.{
  length-set, ℕ, zero, suc, ◌+◌, ◌<◌, ◌≤◌, ◌≡◌, ◌⊎◌, refl, sym, ap, ◌∙◌, Bool, true, false, not,
  ◌==◌, ◌&&◌, ◌||◌, leb, if◌then◌else◌, List, [], ◌∷◌, some, none, Option-cases, Bool-cases, inl,
  inr, ==_iff, length, get_or, set, replicate, length-replicate, ok, bind-ok, ok-eq, arith,
}
use mathlib.Core.Path.{subst}
use ashiato.Base.Reads.{get_or-set, get_or-replicate}
use ashiato.Base.Maps.{find}
use ashiato.EntityStore.{
  Entity, EntityStore, invalid_index, entity_index, slot_version, alive, rebuild_free_list,
}
use ashiato.EntityStore.Invariant.{IsValid}
use ashiato.EntityStore.Rebuild.{rebuild_free_list_lem}
use ashiato.Storage.{Storage, contains, dense_index_at}
use ashiato.Storage.Laws.Invariant.{IsDense, dense-contains, contains-at}
use ashiato.Storage.Copies.{is_excluded}
use ashiato.Registry.{Registry, find_storage}
use ashiato.Snapshots.{
  World, Snapshot, is_known, exclude, zero_excluded, system_storage, holds,
  is_snapshot_excluded_index, exclude_index, exclude_from, make_snapshot_exclusion_mask,
  make_snapshot_entities,
}
use ashiato.Snapshots.Create.{create_snapshot, clone_storages}

length-zero_excluded : (m : List Bool) (xs : List ℕ) → length (zero_excluded m xs) ≡ length xs
unfolding zero_excluded
length-zero_excluded [] xs = refl
length-zero_excluded (b ∷ m) [] = refl
length-zero_excluded (b ∷ m) (x ∷ xs) = ap suc (length-zero_excluded m xs)

get_or-zero_excluded :
    (m : List Bool) (xs : List ℕ) (i : ℕ)
    → get_or (zero_excluded m xs) i 0 ≡ (if is_excluded m i then 0 else get_or xs i 0)
unfolding zero_excluded is_excluded
get_or-zero_excluded [] xs i = ground arith
get_or-zero_excluded (b ∷ m) [] i = ground arith
get_or-zero_excluded (b ∷ m) (x ∷ xs) zero = ground arith
get_or-zero_excluded (b ∷ m) (x ∷ xs) (suc i) = ground (arith, get_or-zero_excluded m xs i)

-- A slot that was zeroed is alive for no handle.
alive-zeroed :
    (m : List Bool) (s : EntityStore) (x : Entity)
    → alive (record { slots = zero_excluded m s.slots; free_head = s.free_head }) x
      ≡ (alive s x && not (is_excluded m (entity_index x)))
unfolding alive
alive-zeroed m s x =
    let none_alive : slot_version 0 ≡ 0 = (unfold slot_version in omega arith) in
    rw (length-zero_excluded m s.slots, get_or-zero_excluded m s.slots (entity_index x))
      (ground (arith, none_alive))

alive-inside : (s : EntityStore) (x : Entity) → alive s x ≡ true → entity_index x < length s.slots
unfolding alive
alive-inside s x h = ground arith

-- The mask has a flag for every slot, or none at all.
abbrev IsMask : ℕ → List Bool → Type 0
IsMask slots excluded = (length excluded ≡ 0) ⊎ (length excluded ≡ slots)

is_excluded-exclude :
    (j slots i : ℕ) (excluded : List Bool)
    → j < slots
    → IsMask slots excluded
    → (length (exclude j slots excluded) ≡ slots)
      × (is_excluded (exclude j slots excluded) i ≡ (is_excluded excluded i || j == i))
unfolding exclude is_excluded
is_excluded-exclude j slots i excluded lt (inl nothing) =
    let made : length (set (replicate slots false) j true) ≡ slots =
      length-set (replicate slots false) j true ∙ length-replicate slots false in
    simp nothing (
      made,
      ground (
        arith,
        made,
        length-replicate slots false,
        get_or-set (replicate slots false) j i true false,
        get_or-replicate slots false i,
      ),
    )
is_excluded-exclude j slots i excluded lt (inr whole) =
    let some_slots : (length excluded == 0) ≡ false = ground arith in
    simp some_slots (
      length-set excluded j true ∙ whole,
      ground (arith, length-set excluded j true, get_or-set excluded j i true false),
    )

module _ {V : Type 0} where
  -- Is the index one that the mask can exclude?
  abbrev open_index : Registry V → ℕ → Bool
  open_index r i = not (leb (length r.entity_store.slots) i || is_known (find i r.records))

  exclude_index-lem :
      (r : Registry V) (j i : ℕ) (excluded : List Bool)
      → IsMask (length r.entity_store.slots) excluded
      → IsMask (length r.entity_store.slots) (exclude_index r j excluded)
        × (is_excluded (exclude_index r j excluded) i
            ≡ (is_excluded excluded i || (j == i && open_index r i)))
  unfolding exclude_index
  exclude_index-lem r j i excluded mask =
      elim (Bool-cases (leb (length r.entity_store.slots) j || is_known (find j r.records))) [
        | inl shut ↦ simp shut (
          mask,
          elim (Bool-cases (j == i)) [
            | inr other ↦ ground arith
            | inl same ↦ ground (arith, ap (λ x. open_index r x) ((==_iff j i).0 same))
          ],
        )
        | inr there ↦
            let inside : j < length r.entity_store.slots = ground arith in
            let (whole, flags) =
              is_excluded-exclude j (length r.entity_store.slots) i excluded inside mask in
            simp there (
              inr whole,
              flags ∙ elim (Bool-cases (j == i)) [
                | inr other ↦ ground arith
                | inl same ↦ ground (arith, ap (λ x. open_index r x) ((==_iff j i).0 same))
              ],
            )
      ]

  -- Does one of these dense entries hold the index?
  seen : Storage V → ℕ → ℕ → ℕ → Bool
  seen storage zero dense i = false
  seen storage (suc rounds) dense i =
      dense_index_at storage dense == i || seen storage rounds (dense + 1) i

  exclude_from-lem :
      (r : Registry V) (storage : Storage V) (rounds dense i : ℕ) (excluded : List Bool)
      → IsMask (length r.entity_store.slots) excluded
      → is_excluded (exclude_from r storage rounds dense excluded) i
        ≡ (is_excluded excluded i || (seen storage rounds dense i && open_index r i))
  unfolding exclude_from seen
  exclude_from-lem r storage zero dense i excluded mask = ground arith
  exclude_from-lem r storage (suc rounds) dense i excluded mask =
      let (next, flags) = exclude_index-lem r (dense_index_at storage dense) i excluded mask in
      exclude_from-lem r storage rounds (dense + 1) i
        (exclude_index r (dense_index_at storage dense) excluded) next
      ∙ ground (arith, flags)

  seen-at :
      (storage : Storage V) (rounds dense d i : ℕ)
      → dense ≤ d
      → d < dense + rounds
      → dense_index_at storage d ≡ i
      → seen storage rounds dense i ≡ true
  unfolding seen
  seen-at storage zero dense d i le lt e = absurd (omega arith)
  seen-at storage (suc rounds) dense d i le lt e = elim (Bool-cases (dense == d)) [
    | inl here ↦ ground (arith, ap (dense_index_at storage) ((==_iff dense d).0 here))
    | inr later ↦
        ground (arith, seen-at storage rounds (dense + 1) d i (ground arith) (omega arith) e)
  ]

  seen-contains :
      (storage : Storage V) (rounds dense i : ℕ)
      → IsDense storage
      → dense + rounds ≤ storage.size
      → seen storage rounds dense i ≡ true
      → contains storage i ≡ true
  unfolding seen
  seen-contains storage zero dense i w le h = absurd (ground arith)
  seen-contains storage (suc rounds) dense i w le h =
      elim (Bool-cases (dense_index_at storage dense == i)) [
        | inl here ↦
            ap (contains storage) (sym ((==_iff (dense_index_at storage dense) i).0 here))
            ∙ dense-contains storage dense w (omega arith)
        | inr later ↦ seen-contains storage rounds (dense + 1) i w (omega arith) (ground arith)
      ]

  seen_lem :
      (storage : Storage V) (i : ℕ)
      → IsDense storage
      → seen storage storage.size 0 i ≡ contains storage i
  seen_lem storage i w = elim (Bool-cases (contains storage i)) [
    | inl there ↦
        let (lt, e) = contains-at storage i w there in
        seen-at storage storage.size 0 _ i (omega arith) (omega (arith, lt)) e ∙ sym there
    | inr missing ↦ elim (Bool-cases (seen storage storage.size 0 i)) [
      | inl found ↦
          absurd
            (ground (arith, missing, seen-contains storage storage.size 0 i w (omega arith) found))
      | inr none_seen ↦ none_seen ∙ sym missing
    ]
  ]

  mask-none : (r : Registry V) → system_storage r ≡ none → make_snapshot_exclusion_mask r ≡ []
  unfolding make_snapshot_exclusion_mask
  mask-none r missing = rw (missing, make_snapshot_exclusion_mask) refl

  mask-some :
      (r : Registry V) (storage : Storage V)
      → system_storage r ≡ some storage
      → make_snapshot_exclusion_mask r ≡ exclude_from r storage storage.size 0 []
  unfolding make_snapshot_exclusion_mask
  mask-some r storage there = rw (there, make_snapshot_exclusion_mask) refl

  -- The mask against the test for one index.
  mask_lem :
      (r : Registry V) (i : ℕ)
      → ((storage : Storage V) → find_storage r r.system_tag ≡ some storage → IsDense storage)
      → i < length r.entity_store.slots
      → is_excluded (make_snapshot_exclusion_mask r) i ≡ is_snapshot_excluded_index r i
  unfolding is_snapshot_excluded_index system_storage holds is_excluded
  mask_lem r i valid inside = elim (Bool-cases (r.system_tag.value == 0)) [
    | inl untagged ↦
        ap (λ x. is_excluded x i) (mask-none r (simp untagged refl)) ∙ simp untagged (ground arith)
    | inr tagged ↦ elim (Option-cases (find_storage r r.system_tag)) [
      | inl missing ↦
          ap (λ x. is_excluded x i) (mask-none r (simp (tagged, missing) refl))
          ∙ simp (tagged, missing) (ground arith)
      | inr (storage, there) ↦
          ap (λ x. is_excluded x i) (mask-some r storage (simp (tagged, there) refl))
          ∙ exclude_from-lem r storage storage.size 0 i [] (inl refl)
          ∙ simp (tagged, there) (ground (arith, seen_lem storage i (valid storage there)))
    ]
  ]

  -- A snapshot of a registry whose tag storage is well formed, with fewer than 2 ^ 32 slots, has a
  -- well-formed free list, and in it exactly those handles are alive that are alive in the registry and
  -- do not belong to the system; its token is that of the registry.
  pub create_snapshot_lem :
      (w : World V) (s : Snapshot V)
      → ((storage : Storage V)
          → find_storage w.registry w.registry.system_tag ≡ some storage
          → IsDense storage)
      → length w.registry.entity_store.slots ≤ invalid_index
      → create_snapshot w ≡ ok s
      → ((free : List ℕ) × IsValid (record { slots = s.entities; free_head = s.free_head }) free)
        × ((x : Entity)
            → alive (record { slots = s.entities; free_head = s.free_head }) x ≡ (
                alive w.registry.entity_store x
                && not (is_snapshot_excluded_index w.registry (entity_index x))))
        × (s.state_token ≡ w.state_token)
  unfolding create_snapshot make_snapshot_entities
  create_snapshot_lem w s valid small h =
      let r : Registry V = w.registry in
      let mask : List Bool = make_snapshot_exclusion_mask r in
      let given : EntityStore = record {
        slots = zero_excluded mask r.entity_store.slots;
        free_head = r.entity_store.free_head;
      } in
      let (storages, copied, made) = bind-ok (clone_storages r mask r.storages) _ s h in
      let same : rebuild_free_list given.slots
          ≡ record { slots = s.entities; free_head = s.free_head } =
        ap (λ x. record { slots = x.entities; free_head = x.free_head }) (ok-eq made) in
      let (well, kept) =
        rebuild_free_list_lem given.slots r.entity_store.free_head
          (omega (arith, length-zero_excluded mask r.entity_store.slots)) in
      (
        (well.0, subst (λ x. IsValid x well.0) same well.1),
        λ x.
            ap (λ y. alive y x) (sym same)
            ∙ kept x
            ∙ alive-zeroed mask r.entity_store x
            ∙ elim (Bool-cases (alive r.entity_store x)) [
              | inr dead ↦ ground arith
              | inl living ↦
                  ground (
                    arith,
                    mask_lem r (entity_index x) valid (alive-inside r.entity_store x living),
                  )
            ],
        sym (ap (λ x. x.state_token) (ok-eq made)),
      )
