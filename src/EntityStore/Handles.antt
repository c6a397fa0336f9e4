-- ===== src/EntityStore/Handles.antt =====
-- Packing and unpacking of handles and slots.
use ashiato.Base.{ℕ, ◌+◌, ◌^◌, ◌<◌, ◌≡◌, arith}
use ashiato.EntityStore.{
  Entity, u32, entity_index, entity_version, pack, slot_index, slot_version, next_version,
}

pub slot_index-pack : (i v : ℕ) → i < u32 → slot_index (pack i v) ≡ i
unfolding slot_index pack
slot_index-pack i v h = omega arith

pub slot_version-pack : (i v : ℕ) → i < u32 → v < u32 → slot_version (pack i v) ≡ v
unfolding slot_version pack
slot_version-pack i v h k = omega arith

pub pack-lt : (i v : ℕ) → i < u32 → v < u32 → pack i v < 2 ^ 64
unfolding pack
pack-lt i v h k = omega arith

pub pack_injective :
    (i v : ℕ) (e : Entity)
    → entity_index e ≡ i
    → entity_version e ≡ v
    → e.value < 2 ^ 64
    → e.value ≡ pack i v
unfolding pack entity_index entity_version
pack_injective i v e h k b = omega arith

pub entity_index-lt : (e : Entity) → entity_index e < u32
unfolding entity_index
entity_index-lt e = omega arith

pub entity_version-lt : (e : Entity) → entity_version e < u32
unfolding entity_version
entity_version-lt e = omega arith

pub slot_version-lt : (s : ℕ) → slot_version s < u32
unfolding slot_version
slot_version-lt s = omega arith

pub slot_index-lt : (s : ℕ) → slot_index s < u32
unfolding slot_index
slot_index-lt s = omega arith

pub entity_of_pack :
    (i v : ℕ)
    → i < u32
    → v < u32
    → (entity_index (record { value = pack i v }) ≡ i)
      × (entity_version (record { value = pack i v }) ≡ v)
unfolding pack entity_index entity_version
entity_of_pack i v h k = omega arith

-- The next version is a version: never 0, and one more unless it wraps.
pub next_version_lem :
    (e : Entity)
    → (0 < next_version e)
      × (next_version e < u32)
      × (entity_version e + 1 < u32 → next_version e ≡ entity_version e + 1)
unfolding next_version
next_version_lem e = (ground arith, ground arith, λ h. ground arith)
