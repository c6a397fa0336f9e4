-- ===== src/EntityStore/Rebuild.antt =====
-- `Registry::rebuild_free_list` makes a well-formed store of any slot vector.
use ashiato.Base.{
  elem, ℕ, zero, suc, ◌<◌, ◌≤◌, ◌≡◌, ◌≢◌, refl, ◌∙◌, true, false, arith, ◌==◌, if◌then◌else◌, List,
  [], ◌∷◌, length, set, inl, inr, length-set, Bool-cases,
}
use ashiato.Base.Reads.{get_or-set}
use ashiato.EntityStore.{
  Entity, EntityStore, u32, invalid_index, entity_index, slot_index, slot_version, slot_at, alive,
  pack, slot_is_alive_at, rebuild_slot, rebuild_from, rebuild_free_list,
}
use ashiato.EntityStore.Handles.{slot_index-pack, slot_version-pack, slot_version-lt}
use ashiato.EntityStore.Invariant.{Distinct, FreeChain, IsValid, FreeChain-set}

-- The slots from `n` on have been gone through, and no handle has changed.
record Part (n : ℕ) (start s : EntityStore) (free : List ℕ) : Type 0 where
  chain : FreeChain s.slots s.free_head free
  distinct : Distinct free
  above : (i : ℕ) → elem i free ≡ true → n ≤ i
  versioned : (i : ℕ) → n ≤ i → i < length s.slots → 0 < slot_version (slot_at s i)
  live : (i : ℕ) → n ≤ i → i < length s.slots → elem i free ≡ false → slot_index (slot_at s i) ≡ i
  room : length s.slots ≤ invalid_index
  size : length s.slots ≡ length start.slots
  kept : (x : Entity) → alive s x ≡ alive start x

chain_head :
    (slots : List ℕ) (head : ℕ) (free : List ℕ) (n : ℕ)
    → length slots ≤ invalid_index
    → n < length slots
    → elem n free ≡ false
    → FreeChain slots head free
    → (head ≢ n) × (head < u32)
chain_head slots head [] n r h out c = omega arith
chain_head slots head (j ∷ js) n r h out c = (λ e. ground arith, omega arith)

module _ (n : ℕ) (start s : EntityStore) (free : List ℕ) (p : Part (suc n) start s free) where
  new_slot : ℕ
  new_slot =
      pack s.free_head (if slot_version (slot_at s n) == 0 then 1 else slot_version (slot_at s n))

  linked : EntityStore
  linked = record { slots = set s.slots n new_slot; free_head = n }

  unlisted : elem n free ≡ false
  unlisted = elim (Bool-cases (elem n free)) [
    | inl there ↦ absurd (omega (arith, p.above n there))
    | inr away ↦ away
  ]

  keep-Part : slot_is_alive_at n (slot_at s n) ≡ true → Part n start s free
  unfolding slot_is_alive_at
  keep-Part h = record {
    chain = p.chain;
    distinct = p.distinct;
    room = p.room;
    size = p.size;
    kept = p.kept;
    above = λ i e. omega (arith, p.above i e);
    versioned = λ i hi b. ground (arith, p.versioned i);
    live = λ i hi b e. ground (arith, p.live i);
  }

  link-Part :
      n < length s.slots → slot_is_alive_at n (slot_at s n) ≡ false → Part n start linked (n ∷ free)
  unfolding slot_is_alive_at linked new_slot alive
  link-Part b h = record {
    chain = (
      refl,
      omega (arith, length-set s.slots n new_slot),
      ground (
        arith,
        get_or-set s.slots n n new_slot 0,
        slot_index-pack s.free_head v,
        chain_head s.slots s.free_head free n p.room b unlisted p.chain,
        FreeChain-set s.slots s.free_head free n new_slot b unlisted p.chain,
      ),
    );
    distinct = (unlisted, p.distinct);
    above = λ i e. ground (arith, p.above i);
    versioned = λ i hi bi. ground (
      arith,
      get_or-set s.slots n i new_slot 0,
      length-set s.slots n new_slot,
      slot_version-pack s.free_head v,
      slot_version-lt (slot_at s n),
      chain_head s.slots s.free_head free n p.room b unlisted p.chain,
      p.versioned i,
    );
    live = λ i hi bi out.
        ground (arith, get_or-set s.slots n i new_slot 0, length-set s.slots n new_slot, p.live i);
    room = omega (arith, length-set s.slots n new_slot, p.room);
    size = omega (arith, length-set s.slots n new_slot, p.size);
    kept = λ x. same x ∙ p.kept x;
  }
    where
      v : ℕ
      v = if slot_version (slot_at s n) == 0 then 1 else slot_version (slot_at s n)

      same : (x : Entity) → alive linked x ≡ alive s x
      same x = ground (
        arith,
        get_or-set s.slots n (entity_index x) new_slot 0,
        length-set s.slots n new_slot,
        slot_index-pack s.free_head v,
        chain_head s.slots s.free_head free n p.room b unlisted p.chain,
      )

  slot-Part : n < length s.slots → (free' : List ℕ) × Part n start (rebuild_slot n s) free'
  unfolding rebuild_slot linked new_slot
  slot-Part b = elim (Bool-cases (slot_is_alive_at n (slot_at s n))) [
    | inl h ↦ rw h (free, keep-Part h)
    | inr h ↦ rw h (n ∷ free, link-Part b h)
  ]

from-Part :
    (n : ℕ) (start s : EntityStore) (free : List ℕ)
    → n ≤ length start.slots
    → Part n start s free
    → (free' : List ℕ) × Part 0 start (rebuild_from n s) free'
unfolding rebuild_from
from-Part zero start s free b p = (free, p)
from-Part (suc n) start s free b p =
    let (free', q) = slot-Part n start s free p (rw p.size b) in
    from-Part n start (rebuild_slot n s) free' (omega arith) q

-- Of any vector of fewer than 2 ^ 32 slots `rebuild_free_list` makes a well-formed store, in which
-- exactly the handles that the given slots hold are alive.
pub rebuild_free_list_lem :
    (entities : List ℕ) (head : ℕ)
    → length entities ≤ invalid_index
    → ((free : List ℕ) × IsValid (rebuild_free_list entities) free)
      × ((x : Entity)
          → alive (rebuild_free_list entities) x
            ≡ alive (record { slots = entities; free_head = head }) x)
unfolding rebuild_free_list alive
rebuild_free_list_lem entities head h =
    let (free, p) = from-Part (length entities) start start [] (omega arith) begin in
    (
      (
        free,
        record {
          chain = p.chain;
          distinct = p.distinct;
          versioned = λ i b. p.versioned i (omega arith) b;
          live = λ i b e. p.live i (omega arith) b e;
          room = p.room;
        },
      ),
      λ x. p.kept x,
    )
  where
    start : EntityStore
    start = record { slots = entities; free_head = invalid_index }

    begin : Part (length entities) start start []
    begin = record {
      chain = refl;
      distinct = tt;
      above = λ i e. ground arith;
      versioned = λ i b c. absurd (omega arith);
      live = λ i b c e. absurd (omega arith);
      room = h;
      size = refl;
      kept = λ x. refl;
    }
