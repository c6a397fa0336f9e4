-- ===== src/Tests/Entities.antt =====
-- The theorems on entity handles at concrete inputs.
use ashiato.Base.{
  ℕ, zero, suc, ◌+◌, ◌^◌, ◌<◌, ◌≡◌, refl, true, false, not, ◌&&◌, ◌==◌, List, [], ◌∷◌, length, elem,
  get_or, arith, ◌⊎◌, ok, err, length_error,
}
use ashiato.EntityStore.{
  Entity, EntityStore, u32, invalid_index, pack, entity_index, entity_version, slot_version,
  slot_index, alive, create, retire, next_version, rebuild_free_list,
}
use ashiato.EntityStore.Invariant.{IsValid}
use ashiato.EntityStore.Create.{create_lem, Created}
use ashiato.EntityStore.Retire.{retire_lem, stale-dead, Step, Reach}
use ashiato.EntityStore.Rebuild.{rebuild_free_list_lem}

-- Slot 0 is alive in version 3, slot 1 is free in version 2, and slot 2 is alive in version 1.
abbrev slots_3 : List ℕ
slots_3 = pack 0 3 ∷ pack invalid_index 2 ∷ pack 2 1 ∷ []

abbrev store_3 : EntityStore
store_3 = record { slots = slots_3; free_head = 1 }

abbrev handle_2 : Entity
handle_2 = record { value = 2 ^ 32 + 2 }

slots_3-versioned : (i : ℕ) → i < 3 → 0 < slot_version (get_or slots_3 i 0)
unfolding pack slot_version
slots_3-versioned zero h = omega arith
slots_3-versioned (suc zero) h = omega arith
slots_3-versioned (suc (suc zero)) h = omega arith
slots_3-versioned (suc (suc (suc i))) h = absurd (omega arith)

slots_3-live : (i : ℕ) → i < 3 → elem i (1 ∷ []) ≡ false → slot_index (get_or slots_3 i 0) ≡ i
unfolding pack slot_index
slots_3-live zero h e = omega arith
slots_3-live (suc zero) h e = absurd (ground arith)
slots_3-live (suc (suc zero)) h e = omega arith
slots_3-live (suc (suc (suc i))) h e = absurd (omega arith)

store_3-IsValid : IsValid store_3 (1 ∷ [])
unfolding pack slot_version slot_index
store_3-IsValid = record {
  chain = (refl, omega arith, refl);
  distinct = (refl, tt);
  versioned = slots_3-versioned;
  live = slots_3-live;
  room = omega arith;
}

handle_2-alive : alive store_3 handle_2 ≡ true
unfolding alive pack slot_version slot_index entity_version entity_index
handle_2-alive = refl

handle_2-version : entity_version handle_2 + 1 < u32
unfolding entity_version
handle_2-version = omega arith

-- After the retirement the slot is given out again.
abbrev store_again : EntityStore
store_again = record { slots = pack 0 3 ∷ pack invalid_index 2 ∷ pack 2 2 ∷ []; free_head = 1 }

create_again : create (retire handle_2 store_3) ≡ ok (record { value = pack 2 2 }, store_again)
unfolding create retire next_version pack slot_version slot_index entity_version entity_index
create_again = refl

reached : Reach (retire handle_2 store_3) store_again
reached =
    Reach.next Reach.here (
      Step.creates (retire handle_2 store_3) store_again (record { value = pack 2 2 }) create_again)

create_lem_example :
    ((create store_3 ≡ err length_error)
      × (◌≡◌ {A = List ℕ} (1 ∷ []) [])
      × (length store_3.slots ≡ invalid_index))
    ⊎ ((e : Entity) × (s' : EntityStore) × (create store_3 ≡ ok (e, s')) × Created store_3 e s')
create_lem_example = create_lem store_3 (1 ∷ []) store_3-IsValid

retire_lem_example :
    IsValid (retire handle_2 store_3) (entity_index handle_2 ∷ 1 ∷ [])
    × ((x : Entity)
        → x.value < 2 ^ 64
        → alive (retire handle_2 store_3) x ≡ (not (x.value == handle_2.value) && alive store_3 x))
retire_lem_example =
    retire_lem store_3 (1 ∷ []) handle_2 store_3-IsValid handle_2-alive (omega arith)

stale-dead_example : alive store_again handle_2 ≡ false
stale-dead_example =
    stale-dead store_3 store_again (1 ∷ []) handle_2 store_3-IsValid handle_2-alive handle_2-version
      reached

rebuild_free_list_lem_example :
    ((free : List ℕ) × IsValid (rebuild_free_list slots_3) free)
    × ((x : Entity)
        → alive (rebuild_free_list slots_3) x ≡ alive (record { slots = slots_3; free_head = 7 }) x)
rebuild_free_list_lem_example = rebuild_free_list_lem slots_3 7 (omega arith)
