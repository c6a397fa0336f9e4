-- ===== src/EntityStore/Retire.antt =====
-- What the end of `Registry::destroy` does to the slots, and why a stale handle stays dead.
use ashiato.Base.{
  elem, ℕ, ◌+◌, ◌^◌, ◌<◌, ◌≤◌, ◌≡◌, ◌≢◌, refl, true, false, arith, ◌&&◌, ◌==◌, not, if◌then◌else◌,
  List, [], ◌∷◌, length, inl, inr, ok, length-set, length-push_back, Bool-cases,
}
use ashiato.Base.Reads.{get_or-set, get_or-push_back}
use ashiato.EntityStore.{
  Entity, EntityStore, u32, invalid_index, entity_index, entity_version, slot_index, slot_version,
  slot_at, alive, create, pack, retire, next_version,
}
use ashiato.EntityStore.Handles.{
  slot_index-pack, slot_version-pack, slot_version-lt, next_version_lem,
}
use ashiato.EntityStore.Invariant.{FreeChain, IsValid, FreeChain-set, free-ne}
use ashiato.EntityStore.Create.{create_lem}

head-ne :
    (slots : List ℕ) (head : ℕ) (free : List ℕ) (i : ℕ)
    → length slots ≤ invalid_index
    → i < length slots
    → elem i free ≡ false
    → FreeChain slots head free
    → (head ≢ i) × (head < u32)
head-ne slots head [] i r h out c = omega arith
head-ne slots head (j ∷ js) i r h out c = (λ e. ground arith, omega arith)

-- What `alive` says of the slot of a handle.
pub alive_slot :
    (s : EntityStore) (e : Entity)
    → alive s e ≡ true
    → (entity_index e < length s.slots)
      × (slot_index (slot_at s (entity_index e)) ≡ entity_index e)
      × (slot_version (slot_at s (entity_index e)) ≡ entity_version e)
      × (0 < entity_version e)
unfolding alive
alive_slot s e h = ground arith

handle_eq :
    (x e : Entity)
    → x.value < 2 ^ 64
    → e.value < 2 ^ 64
    → x.value == e.value
      ≡ (entity_index x == entity_index e && entity_version x == entity_version e)
unfolding entity_index entity_version
handle_eq x e hx he = ground arith

-- The index of an entity that is alive is not on the free list.
pub alive-not_free :
    (s : EntityStore) (free : List ℕ) (e : Entity)
    → IsValid s free
    → alive s e ≡ true
    → elem (entity_index e) free ≡ false
alive-not_free s free e w h = elim (Bool-cases (elem (entity_index e) free)) [
  | inl there ↦ absurd (
      (free-ne s.slots s.free_head free (entity_index e) w.room w.distinct w.chain there).1
        (alive_slot s e h).1)
  | inr away ↦ away
]

-- The index of the entity goes to the front of the free list.
pub retire-IsValid :
    (s : EntityStore) (free : List ℕ) (e : Entity)
    → IsValid s free
    → alive s e ≡ true
    → IsValid (retire e s) (entity_index e ∷ free)
unfolding retire
retire-IsValid s free e w h = record {
  chain = (
    refl,
    omega (arith, length-set s.slots i v, (alive_slot s e h).0),
    ground (
      arith,
      get_or-set s.slots i i v 0,
      (alive_slot s e h).0,
      slot_index-pack s.free_head (next_version e),
      head-ne s.slots s.free_head free i w.room (alive_slot s e h).0 (alive-not_free s free e w h)
          w.chain,
      FreeChain-set s.slots s.free_head free i v (alive_slot s e h).0 (alive-not_free s free e w h)
          w.chain,
    ),
  );
  distinct = (alive-not_free s free e w h, w.distinct);
  versioned = λ j hj. ground (
    arith,
    get_or-set s.slots i j v 0,
    (alive_slot s e h).0,
    length-set s.slots i v,
    slot_version-pack s.free_head (next_version e),
    next_version_lem e,
    head-ne s.slots s.free_head free i w.room (alive_slot s e h).0 (alive-not_free s free e w h)
        w.chain,
    w.versioned j,
  );
  live = λ j hj out.
      ground
        (arith, get_or-set s.slots i j v 0, (alive_slot s e h).0, length-set s.slots i v, w.live j);
  room = omega (arith, length-set s.slots i v);
}
  where
    i : ℕ
    i = entity_index e

    v : ℕ
    v = pack s.free_head (next_version e)

-- Retiring an entity that is alive leaves the store well formed, makes that handle dead, and no
-- other handle alive or dead.
pub retire_lem :
    (s : EntityStore) (free : List ℕ) (e : Entity)
    → IsValid s free
    → alive s e ≡ true
    → e.value < 2 ^ 64
    → IsValid (retire e s) (entity_index e ∷ free)
      × ((x : Entity)
          → x.value < 2 ^ 64
          → alive (retire e s) x ≡ (not (x.value == e.value) && alive s x))
unfolding retire alive
retire_lem s free e w h he = (retire-IsValid s free e w h, λ x hx. others x hx)
  where
    v : ℕ
    v = pack s.free_head (next_version e)

    others :
        (x : Entity)
        → x.value < 2 ^ 64
        → alive (retire e s) x ≡ (not (x.value == e.value) && alive s x)
    others x hx = ground (
      arith,
      handle_eq x e,
      get_or-set s.slots (entity_index e) (entity_index x) v 0,
      length-set s.slots (entity_index e) v,
      alive_slot s e h,
      slot_index-pack s.free_head (next_version e),
      head-ne s.slots s.free_head free (entity_index e) w.room (alive_slot s e h).0
          (alive-not_free s free e w h) w.chain,
    )

-- The later life of a store: entities are created, and entities that are alive are retired. The
-- 32-bit version of a retired entity does not wrap.
pub data Step : EntityStore → EntityStore → Type 0 where
  creates : (s s' : EntityStore) (e : Entity) → create s ≡ ok (e, s') → Step s s'
  retires :
      (s : EntityStore) (e : Entity)
      → alive s e ≡ true
      → entity_version e + 1 < u32
      → Step s (retire e s)

pub data Reach (s : EntityStore) : EntityStore → Type 0 where
  here : Reach s s
  next : {t u : EntityStore} → Reach s t → Step t u → Reach s u

-- The slot of `e` has gone on to a later version.
pub record Past (e : Entity) (s : EntityStore) : Type 0 where
  pub valid : (free : List ℕ) × IsValid s free
  pub inside : entity_index e < length s.slots
  pub later : entity_version e < slot_version (slot_at s (entity_index e))

Past-dead : (e : Entity) (s : EntityStore) → Past e s → alive s e ≡ false
unfolding alive
Past-dead e s p = ground arith

create-slots :
    (s : EntityStore) (free : List ℕ) (e : Entity) (s' : EntityStore) (i : ℕ)
    → IsValid s free
    → create s ≡ ok (e, s')
    → i < length s.slots
    → (i < length s'.slots) × (slot_version (slot_at s' i) ≡ slot_version (slot_at s i))
unfolding create
create-slots s [] e s' i w h b = ground (
  arith,
  get_or-push_back s.slots (pack (length s.slots) 1) i 0,
  length-push_back s.slots (pack (length s.slots) 1),
)
create-slots s (j ∷ js) e s' i w h b = ground (
  arith,
  get_or-set s.slots j i (pack j v) 0,
  length-set s.slots j (pack j v),
  slot_version-pack j v,
  slot_version-lt (slot_at s j),
)
  where
    v : ℕ
    v = slot_version (slot_at s j)

create-keeps :
    (s : EntityStore) (free : List ℕ) (e : Entity) (s' : EntityStore)
    → IsValid s free
    → create s ≡ ok (e, s')
    → (free' : List ℕ) × IsValid s' free'
create-keeps s free e s' w h = elim (create_lem s free w) [
  | inl full ↦ absurd (ground arith)
  | inr (e', t, r, c) ↦ let same : s' ≡ t = ground arith in rw same c.valid
]

retired_length :
    (s : EntityStore) (x : Entity) (i : ℕ) → i < length s.slots → i < length (retire x s).slots
unfolding retire
retired_length s x i h =
    omega (arith, length-set s.slots (entity_index x) (pack s.free_head (next_version x)))

-- Retiring moves the version of its slot up by one, and touches no other slot.
retired_version :
    (s : EntityStore) (free : List ℕ) (x : Entity) (i : ℕ)
    → IsValid s free
    → alive s x ≡ true
    → entity_version x + 1 < u32
    → slot_version (slot_at (retire x s) i)
      ≡ (if entity_index x == i then entity_version x + 1 else slot_version (slot_at s i))
unfolding retire
retired_version s free x i w h v = ground (
  arith,
  get_or-set s.slots (entity_index x) i (pack s.free_head (next_version x)) 0,
  alive_slot s x h,
  slot_version-pack s.free_head (next_version x),
  next_version_lem x,
  head-ne s.slots s.free_head free (entity_index x) w.room (alive_slot s x h).0
      (alive-not_free s free x w h) w.chain,
)

retired_later :
    (s : EntityStore) (free : List ℕ) (x e : Entity)
    → IsValid s free
    → alive s x ≡ true
    → entity_version x + 1 < u32
    → entity_version e < slot_version (slot_at s (entity_index e))
    → entity_version e < slot_version (slot_at (retire x s) (entity_index e))
retired_later s free x e w h v p =
    rw (retired_version s free x (entity_index e) w h v) (ground (arith, alive_slot s x h))

Past-Step : (e : Entity) {s t : EntityStore} → Step s t → Past e s → Past e t
Past-Step e (creates s s' x h) p =
    let (b, same) = create-slots s p.valid.0 x s' (entity_index e) p.valid.1 h p.inside in
    record {
      valid = create-keeps s p.valid.0 x s' p.valid.1 h;
      inside = b;
      later = rw same p.later;
    }
Past-Step e (retires s x h v) p = record {
  valid = (_, retire-IsValid s p.valid.0 x p.valid.1 h);
  inside = retired_length s x (entity_index e) p.inside;
  later = retired_later s p.valid.0 x e p.valid.1 h v p.later;
}

Past-Reach : (e : Entity) {s t : EntityStore} → Past e s → Reach s t → Past e t
Past-Reach e p here = p
Past-Reach e p (next r st) = Past-Step e st (Past-Reach e p r)

-- A handle that has been retired is never alive again, whatever is created and retired
-- afterwards, as long as no 32-bit version wraps.
pub stale-dead :
    (s t : EntityStore) (free : List ℕ) (e : Entity)
    → IsValid s free
    → alive s e ≡ true
    → entity_version e + 1 < u32
    → Reach (retire e s) t
    → alive t e ≡ false
stale-dead s t free e w h v r = Past-dead e t (Past-Reach e retired r)
  where
    retired : Past e (retire e s)
    retired = record {
      valid = (_, retire-IsValid s free e w h);
      inside = retired_length s e (entity_index e) (alive_slot s e h).0;
      later = rw (retired_version s free e (entity_index e) w h v) (ground arith);
    }
