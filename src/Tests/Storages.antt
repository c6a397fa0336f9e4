-- ===== src/Tests/Storages.antt =====
-- The theorems on the storage of a component at concrete inputs.
use ashiato.Base.{
  ℕ, zero, suc, ◌+◌, ◌^◌, ◌<◌, ◌≤◌, ◌≡◌, ◌≢◌, refl, true, false, not, ◌&&◌, ◌||◌, ◌==◌, [], ◌∷◌,
  get_or, arith, some, none, ◌⊎◌, ok, err, out_of_range,
}
use ashiato.Base.Counting.{count_set}
use ashiato.EntityStore.{Entity, entity_index}
use ashiato.Storage.{
  Storage, Info, npos, no_tombstone, tombstone_dirty, tombstone_destroy_entity, new, sparse_at,
  contains, dense_position,
}
use ashiato.Storage.Tombstones.{tombstone_at, position_of, has_tombstone}
use ashiato.Storage.Flags.{clear_all_dirty, has_dirty_entries}
use ashiato.Storage.Access.{is_dirty, clear_dirty}
use ashiato.Storage.Insert.{emplace_or_replace, emplace_or_replace_tag}
use ashiato.Storage.Erase.{remove, remove_for_destroy}
use ashiato.Storage.Swap.{swap_dense, move_index_to_dense}
use ashiato.Storage.Laws.Invariant.{IsValid, new-IsValid}
use ashiato.Storage.Laws.Put.{Put, emplace_or_replace_lem, emplace_or_replace_tag_lem}
use ashiato.Storage.Laws.Gone.{Gone, remove-cases, remove_for_destroy-cases}
use ashiato.Storage.Laws.Swap.{Reordered, exchanged, swap_dense-cases, move_index_to_dense_lem}
use ashiato.Storage.Laws.Flagged.{IsUnlisted}
use ashiato.Storage.Laws.Cleared.{Remarked, clear_dirty_lem, clear_all_dirty_lem, clean-not_dirty}

abbrev plain : Info
plain = record { tag = false; trivially_copyable = true; copyable = true }

abbrev tag_info : Info
tag_info = record { tag = true; trivially_copyable = true; copyable = true }

-- Index 3 with value 30, dirty, and index 1 with value 10; index 0 has a tombstone.
abbrev pub two : Storage ℕ
two = record {
  dense_indices = 3 ∷ 1 ∷ [];
  sparse = npos ∷ 1 ∷ npos ∷ 0 ∷ [];
  dirty = 1 ∷ 0 ∷ [];
  added = 0 ∷ 0 ∷ [];
  tombstones = 1 ∷ [];
  tombstone_indices = 0 ∷ [];
  tombstone_positions = 0 ∷ [];
  tombstone_entities = 4294967296 ∷ [];
  values = 30 ∷ 10 ∷ [];
  size = 2;
  capacity = 4;
  dirty_count = 1;
  added_count = 0;
  tombstone_count = 1;
  compact_lookup = false;
  info = plain;
}

two-inside : (d : ℕ) → d < 2 → get_or (3 ∷ 1 ∷ []) d npos < 4
two-inside zero h = omega arith
two-inside (suc zero) h = omega arith
two-inside (suc (suc d)) h = absurd (omega arith)

two-inverse :
    (d : ℕ) → d < 2 → get_or (npos ∷ 1 ∷ npos ∷ 0 ∷ []) (get_or (3 ∷ 1 ∷ []) d npos) npos ≡ d
two-inverse zero h = refl
two-inverse (suc zero) h = refl
two-inverse (suc (suc d)) h = absurd (omega arith)

two-listed :
    (i : ℕ)
    → tombstone_at two i ≢ no_tombstone
    → (position_of two i < 1) × (get_or (0 ∷ []) (position_of two i) npos ≡ i)
two-listed zero h = (omega arith, refl)
two-listed (suc i) h = absurd (h refl)

two-buried :
    (p : ℕ)
    → p < 1
    → (tombstone_at two (get_or (0 ∷ []) p npos) ≢ no_tombstone)
      × (position_of two (get_or (0 ∷ []) p npos) ≡ p)
two-buried zero h = (omega arith, refl)
two-buried (suc p) h = absurd (omega arith)

pub two-IsValid : IsValid two
unfolding count_set
two-IsValid = record {
  dense = record {
    dense_length = refl;
    dense_inside = two-inside;
    inverse = two-inverse;
    value_length = λ h. refl;
    small = omega arith;
  };
  flagged = record {
    dirty_length = refl;
    added_length = refl;
    dirty_counted = refl;
    added_counted = refl;
  };
  tombs = record {
    positions_length = refl;
    entities_length = refl;
    listed = two-listed;
    buried = two-buried;
    tombstones_counted = refl;
    few = omega arith;
  };
  ordinary = refl;
}

abbrev no_tags : Storage ℕ
no_tags = new tag_info

no_tags-IsValid : IsValid no_tags
no_tags-IsValid = new-IsValid tag_info

-- Entities with index 1, which has the component, and index 2, which has not.
abbrev entity_1 : Entity
entity_1 = record { value = 2 ^ 32 + 1 }

abbrev entity_2 : Entity
entity_2 = record { value = 2 ^ 32 + 2 }

emplace_or_replace_lem_example :
    (s' : Storage ℕ) × (emplace_or_replace true entity_2 20 two ≡ ok s')
    × Put two s' (entity_index entity_2) (some 20)
emplace_or_replace_lem_example =
    emplace_or_replace_lem two entity_2 20 two-IsValid refl (omega arith)

emplace_or_replace_tag_lem_example :
    (s' : Storage ℕ) × (emplace_or_replace_tag entity_2 no_tags ≡ ok s')
    × Put no_tags s' (entity_index entity_2) none
unfolding new
emplace_or_replace_tag_lem_example =
    emplace_or_replace_tag_lem no_tags entity_2 no_tags-IsValid refl (omega arith)

remove-cases_example :
    ((contains two (entity_index entity_1) ≡ true)
      × ((remove entity_1 two).0 ≡ true)
      × Gone two (remove entity_1 two).1 (entity_index entity_1) tombstone_dirty)
    ⊎ ((contains two (entity_index entity_1) ≡ false) × (remove entity_1 two ≡ (false, two)))
remove-cases_example = remove-cases two entity_1 two-IsValid (omega arith)

remove_for_destroy-cases_example :
    ((contains two (entity_index entity_1) ≡ true)
      × Gone two
          (remove_for_destroy entity_1 two)
          (entity_index entity_1)
          (tombstone_dirty + tombstone_destroy_entity))
    ⊎ ((contains two (entity_index entity_1) ≡ false) × (remove_for_destroy entity_1 two ≡ two))
remove_for_destroy-cases_example = remove_for_destroy-cases two entity_1 two-IsValid (omega arith)

swap_dense-cases_example :
    ((0 < two.size)
      × (1 < two.size)
      × (s' : Storage ℕ) × (swap_dense 0 1 two ≡ ok s')
      × Reordered two s' (exchanged two 0 1))
    ⊎ ((◌≡◌ {A = ℕ} 0 1) × (swap_dense 0 1 two ≡ ok two))
    ⊎ (((two.size ≤ 0) ⊎ (two.size ≤ 1)) × (swap_dense 0 1 two ≡ err out_of_range))
swap_dense-cases_example = swap_dense-cases two 0 1 two-IsValid

contains-1 : contains two 1 ≡ true
unfolding contains
contains-1 = refl

move_index_to_dense_lem_example :
    (s' : Storage ℕ) × (move_index_to_dense 1 0 two ≡ ok s')
    × Reordered two s' (exchanged two (sparse_at two 1) 0)
    × (dense_position s' 1 ≡ 0)
move_index_to_dense_lem_example =
    move_index_to_dense_lem two 1 0 two-IsValid contains-1 (omega arith)

clear_dirty_lem_example :
    ((clear_dirty 3 two).0 ≡ (contains two 3 || has_tombstone two 3))
    × Remarked two (clear_dirty 3 two).1 (λ j. not (j == 3) && is_dirty two j)
    × IsUnlisted two (clear_dirty 3 two).1 3
clear_dirty_lem_example = clear_dirty_lem two 3 two-IsValid

clear_all_dirty_lem_example :
    Remarked two (clear_all_dirty two) (λ j. false)
    × (has_dirty_entries (clear_all_dirty two) ≡ false)
clear_all_dirty_lem_example = clear_all_dirty_lem two two-IsValid

clean_now : has_dirty_entries (clear_all_dirty two) ≡ false
clean_now = (clear_all_dirty_lem two two-IsValid).1

clean-not_dirty_example : is_dirty (clear_all_dirty two) 3 ≡ false
clean-not_dirty_example =
    clean-not_dirty (clear_all_dirty two) 3 (clear_all_dirty_lem two two-IsValid).0.valid clean_now
