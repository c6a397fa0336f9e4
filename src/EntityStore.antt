-- ===== src/EntityStore.antt =====
-- Entity handles and the slot vector of include/ashiato/ashiato.hpp: `Entity`, `EntityStore`,
-- `Registry::create`, `Registry::alive`, the end of `Registry::destroy` and
-- `Registry::rebuild_free_list`. The runtime access checks are those of a build with
-- ASHIATO_RUNTIME_REGISTRY_ACCESS_CHECKING off, where they do nothing.
pub mod Handles
pub mod Invariant
pub mod Create
pub mod Retire
pub mod Rebuild
use ashiato.Base.{
  ℕ, zero, suc, ◌+◌, ◌-◌, ◌*◌, ◌/◌, ◌%◌, ◌^◌, Bool, true, false, not, ◌&&◌, ◌||◌, List, [], ltb,
  leb, ◌==◌, if◌then◌else◌, Result, ok, err, length_error, length, get_or, set, push_back,
}

-- `struct Entity`: a 64-bit value.
pub record Entity : Type 0 where
  pub value : ℕ

abbrev pub u32 : ℕ
u32 = 2 ^ 32

-- `std::numeric_limits<std::uint32_t>::max()`
abbrev pub invalid_index : ℕ
invalid_index = 2 ^ 32 - 1

unfoldable pub entity_index : Entity → ℕ
entity_index e = e.value % u32

unfoldable pub entity_version : Entity → ℕ
entity_version e = e.value / u32 % u32

-- The halves do not overlap, so `|` is `+`.
unfoldable pub pack : ℕ → ℕ → ℕ
pack index version = version * u32 + index

unfoldable pub slot_index : ℕ → ℕ
slot_index slot = slot % u32

unfoldable pub slot_version : ℕ → ℕ
slot_version slot = slot / u32 % u32

pub record EntityStore : Type 0 where
  pub slots : List ℕ
  pub free_head : ℕ

-- `entity_store_.slots[index]`
abbrev pub slot_at : EntityStore → ℕ → ℕ
slot_at s index = get_or s.slots index 0

unfoldable pub create : EntityStore → Result (Entity × EntityStore)
create s =
    if not (s.free_head == invalid_index)
    then ok (
      record { value = pack s.free_head (slot_version (slot_at s s.free_head)) },
      record {
        slots = set s.slots s.free_head (pack s.free_head (slot_version (slot_at s s.free_head)));
        free_head = slot_index (slot_at s s.free_head);
      },
    )
    else if leb invalid_index (length s.slots)
    then err length_error
    else ok (
      record { value = pack (length s.slots) 1 },
      record s { slots = push_back s.slots (pack (length s.slots) 1) },
    )

unfoldable pub alive : EntityStore → Entity → Bool
alive s e =
    if entity_version e == 0 || leb (length s.slots) (entity_index e)
    then false
    else slot_index (slot_at s (entity_index e)) == entity_index e
      && slot_version (slot_at s (entity_index e)) == entity_version e

-- `entity_version(entity) + 1` on 32 bits, with 0 skipped.
unfoldable pub next_version : Entity → ℕ
next_version e = let v = (entity_version e + 1) % u32 in if v == 0 then 1 else v

-- The end of `Registry::destroy`, which runs for an entity that is alive.
unfoldable pub retire : Entity → EntityStore → EntityStore
retire e s = record {
  slots = set s.slots (entity_index e) (pack s.free_head (next_version e));
  free_head = entity_index e;
}

unfoldable pub slot_is_alive_at : ℕ → ℕ → Bool
slot_is_alive_at index slot = slot_index slot == index && not (slot_version slot == 0)

-- One round of the loop of `rebuild_free_list`, at `offset - 1`.
unfoldable pub rebuild_slot : ℕ → EntityStore → EntityStore
rebuild_slot index s = if slot_is_alive_at index (slot_at s index) then s else record {
  slots = set s.slots index (
      pack s.free_head
        (if slot_version (slot_at s index) == 0 then 1 else slot_version (slot_at s index)));
  free_head = index;
}

-- The rounds at `offset`, `offset - 1`, ..., 1.
unfoldable pub rebuild_from : ℕ → EntityStore → EntityStore
rebuild_from zero s = s
rebuild_from (suc offset) s = rebuild_from offset (rebuild_slot offset s)

unfoldable pub rebuild_free_list : List ℕ → EntityStore
rebuild_free_list entities =
    rebuild_from (length entities) (record { slots = entities; free_head = invalid_index })
