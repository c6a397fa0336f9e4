-- ===== src/EntityStore/Create.antt =====
-- What `Registry::create` does, in both of its branches.
use ashiato.Base.{
  ℕ, ◌^◌, ◌<◌, ◌≡◌, refl, false, arith, ◌&&◌, ◌||◌, ◌==◌, List, [], ◌∷◌, length, set, push_back,
  ◌⊎◌, inl, inr, ok, err, length_error, length-set, length-push_back, leb, Bool-cases,
}
use ashiato.Base.Reads.{get_or-set, get_or-push_back}
use ashiato.EntityStore.{
  Entity, EntityStore, u32, invalid_index, entity_index, entity_version, slot_index, slot_version,
  slot_at, alive, create, pack,
}
use ashiato.EntityStore.Handles.{
  slot_index-pack, slot_version-pack, slot_version-lt, entity_of_pack,
}
use ashiato.EntityStore.Invariant.{IsValid, FreeChain-set, free-ne}

-- `e` was dead in `s`, `s'` is well formed, and `e` is the one handle that has come alive.
pub record Created (s : EntityStore) (e : Entity) (s' : EntityStore) : Type 0 where
  pub valid : (free : List ℕ) × IsValid s' free
  pub fresh : alive s e ≡ false
  pub adds : (x : Entity) → x.value < 2 ^ 64 → alive s' x ≡ (x.value == e.value || alive s x)

-- Equal words are handles with equal halves.
pub value_eq :
    (x : Entity) (i v : ℕ)
    → i < u32
    → v < u32
    → x.value < 2 ^ 64
    → x.value == pack i v ≡ (entity_index x == i && entity_version x == v)
unfolding entity_index entity_version pack
value_eq x i v hi hv hx = ground arith

fresh_slot : (s : EntityStore) → EntityStore
fresh_slot s = record s { slots = push_back s.slots (pack (length s.slots) 1) }

reused_slot : (s : EntityStore) (i : ℕ) → EntityStore
reused_slot s i = record {
  slots = set s.slots i (pack i (slot_version (slot_at s i)));
  free_head = slot_index (slot_at s i);
}

reused-Created :
    (s : EntityStore) (i : ℕ) (is : List ℕ)
    → IsValid s (i ∷ is)
    → Created s (record { value = pack i (slot_version (slot_at s i)) }) (reused_slot s i)
unfolding alive reused_slot
reused-Created s i is w = record {
  valid = (
    is,
    record {
      chain =
          FreeChain-set s.slots (slot_index (slot_at s i)) is i _ w.chain.1 w.distinct.0 w.chain.2;
      distinct = w.distinct.1;
      versioned = λ j h. ground (
        arith,
        get_or-set s.slots i j (pack i v) 0 w.chain.1,
        length-set s.slots i (pack i v),
        slot_version-pack i v,
        slot_version-lt (slot_at s i),
        w.versioned j,
      );
      live = λ j h out. ground (
        arith,
        get_or-set s.slots i j (pack i v) 0 w.chain.1,
        length-set s.slots i (pack i v),
        slot_index-pack i v,
        w.live j,
      );
      room = omega (arith, length-set s.slots i (pack i v));
    },
  );
  fresh = ground (
    arith,
    free-ne s.slots s.free_head (i ∷ is) i,
    entity_of_pack i v,
    slot_version-lt (slot_at s i),
  );
  adds = λ x hx. ground (
    arith,
    get_or-set s.slots i (entity_index x) (pack i v) 0 w.chain.1,
    length-set s.slots i (pack i v),
    value_eq x i v,
    free-ne s.slots s.free_head (i ∷ is) i,
    slot_index-pack i v,
    slot_version-pack i v,
    slot_version-lt (slot_at s i),
    w.versioned i,
  );
}
  where
    v : ℕ
    v = slot_version (slot_at s i)

fresh-Created :
    (s : EntityStore)
    → IsValid s []
    → length s.slots < invalid_index
    → Created s (record { value = pack (length s.slots) 1 }) (fresh_slot s)
unfolding alive fresh_slot
fresh-Created s w h = record {
  valid = (
    [],
    record {
      chain = w.chain;
      distinct = tt;
      versioned = λ j hj. ground (
        arith,
        get_or-push_back s.slots (pack n 1) j 0,
        length-push_back s.slots (pack n 1),
        slot_version-pack n 1,
        w.versioned j,
      );
      live = λ j hj out. ground (
        arith,
        get_or-push_back s.slots (pack n 1) j 0,
        length-push_back s.slots (pack n 1),
        slot_index-pack n 1,
        w.live j,
      );
      room = omega (arith, length-push_back s.slots (pack n 1));
    },
  );
  fresh = ground (arith, entity_of_pack n 1);
  adds = λ x hx. ground (
    arith,
    get_or-push_back s.slots (pack n 1) (entity_index x) 0,
    length-push_back s.slots (pack n 1),
    value_eq x n 1,
    slot_index-pack n 1,
    slot_version-pack n 1,
  );
}
  where
    n : ℕ
    n = length s.slots

-- On a well-formed store `create` either throws `std::length_error`, with no slot free and every
-- index in use, or returns a handle that was dead, leaves the store well formed, and makes that
-- handle alive and no other handle alive or dead.
pub create_lem :
    (s : EntityStore) (free : List ℕ)
    → IsValid s free
    → ((create s ≡ err length_error) × (free ≡ []) × (length s.slots ≡ invalid_index))
      ⊎ ((e : Entity) × (s' : EntityStore) × (create s ≡ ok (e, s')) × Created s e s')
unfolding create fresh_slot reused_slot
create_lem s [] w = elim (Bool-cases (leb invalid_index (length s.slots))) [
  | inl full ↦ inl (ground arith, refl, ground arith)
  | inr room ↦ inr (_, fresh_slot s, ground arith, fresh-Created s w (ground arith))
]
create_lem s (i ∷ is) w = inr (_, reused_slot s i, ground arith, reused-Created s i is w)
