-- ===== src/Storage/Laws/Marked.antt =====
-- `mark_tombstone` with flags that are not 0: it lists the index, once.
use ashiato.Base.{
  ℕ, ◌+◌, ◌<◌, ◌≡◌, ◌≢◌, ◌&&◌, ◌==◌, arith, if◌then◌else◌, length, get_or, length-set,
  length-push_back,
}
use ashiato.Base.Reads.{get_or-set, get_or-push_back}
use ashiato.EntityStore.{Entity, entity_index}
use ashiato.Storage.{Storage, npos, no_tombstone}
use ashiato.Storage.Tombstones.{
  tombstone_at, position_of, ensure_sparse, put_tombstone, list_tombstone, widen_entities,
  mark_tombstone,
}
use ashiato.Storage.Laws.Invariant.{IsBuried}
use ashiato.Storage.Laws.Tombs.{ensure_sparse-reads, ensure_sparse-lengths, ensure_sparse-IsBuried}

module _ {V : Type 0} (u : Storage V) (i flags value : ℕ) (w : IsBuried u) where
  put : Storage V
  put = put_tombstone i flags value (list_tombstone i flags u)

  module _ (nonzero : flags ≢ no_tombstone) (b : i < length u.tombstones) where
    tombstone-put :
        (j : ℕ)
        → (tombstone_at put j ≡ (if j == i then flags else tombstone_at u j))
          × (get_or put.tombstone_entities j 0
              ≡ (if j == i then value else get_or u.tombstone_entities j 0))
    unfolding put put_tombstone list_tombstone
    tombstone-put j = (
      ground (arith, get_or-set u.tombstones i j flags no_tombstone),
      ground (arith, get_or-set u.tombstone_entities i j value 0, w.entities_length),
    )

    lengths-put :
        (length put.tombstones ≡ length u.tombstones)
        × (length put.tombstone_positions ≡ length u.tombstones)
        × (length put.tombstone_entities ≡ length u.tombstones)
    unfolding put put_tombstone list_tombstone
    lengths-put = (
      ground (arith, length-set u.tombstones i flags),
      ground (
        arith,
        length-set u.tombstone_positions i (length u.tombstone_indices),
        w.positions_length,
      ),
      ground (arith, length-set u.tombstone_entities i value, w.entities_length),
    )

    -- A new tombstone is listed at the end, one that is there stays where it is.
    listing-put :
        ((j : ℕ)
          → position_of put j ≡ (
              if j == i && tombstone_at u i == no_tombstone
              then length u.tombstone_indices
              else position_of u j))
        × ((p : ℕ)
            → get_or put.tombstone_indices p npos ≡ (
                if p == length u.tombstone_indices && tombstone_at u i == no_tombstone
                then i
                else get_or u.tombstone_indices p npos))
        × (length put.tombstone_indices ≡ (
            if tombstone_at u i == no_tombstone
            then length u.tombstone_indices + 1
            else length u.tombstone_indices))
        × (put.tombstone_count ≡ (
            if tombstone_at u i == no_tombstone then u.tombstone_count + 1 else u.tombstone_count))
    unfolding put put_tombstone list_tombstone
    listing-put = (
      λ j. ground (
        arith,
        get_or-set u.tombstone_positions i j (length u.tombstone_indices) npos,
        w.positions_length,
      ),
      λ p. ground (arith, get_or-push_back u.tombstone_indices i p npos),
      ground (arith, length-push_back u.tombstone_indices i),
      ground arith,
    )

    put-IsBuried : length u.tombstone_indices < npos → IsBuried put
    put-IsBuried room = record {
      positions_length = omega (arith, lengths-put);
      entities_length = omega (arith, lengths-put);
      listed = λ j h. ground (
        arith,
        (tombstone-put j).0,
        listing-put.0 j,
        listing-put.1 (position_of put j),
        listing-put.2,
        w.listed j,
      );
      buried = λ p h. ground (
        arith,
        (tombstone-put (get_or put.tombstone_indices p npos)).0,
        listing-put.0 (get_or put.tombstone_indices p npos),
        listing-put.1 p,
        listing-put.2,
        w.buried p,
      );
      tombstones_counted = ground (arith, listing-put.2, listing-put.3, w.tombstones_counted);
      few = ground (arith, listing-put.2, w.few);
    }

module _ {V : Type 0} (s : Storage V) (entity : Entity) (flags : ℕ) (w : IsBuried s) where
  room : Storage V
  room = ensure_sparse (entity_index entity) s

  room-IsBuried : IsBuried room
  unfolding room
  room-IsBuried = ensure_sparse-IsBuried s (entity_index entity) w

  room_inside : entity_index entity < length room.tombstones
  unfolding room
  room_inside = omega (arith, ensure_sparse-lengths s (entity_index entity))

  widened : widen_entities room ≡ room
  unfolding widen_entities
  widened = ground (arith, room-IsBuried.entities_length)

  marked :
      mark_tombstone entity flags s
      ≡ put room (entity_index entity) flags entity.value room-IsBuried
  unfolding mark_tombstone put room
  marked = rw widened

  module _ (nonzero : flags ≢ no_tombstone) where
    -- The flags and the entity are kept at the index, and no other tombstone changes.
    pub tombstone-mark_tombstone :
        (j : ℕ)
        → (tombstone_at (mark_tombstone entity flags s) j
            ≡ (if j == entity_index entity then flags else tombstone_at s j))
          × (get_or (mark_tombstone entity flags s).tombstone_entities j 0 ≡ (
              if j == entity_index entity then entity.value else get_or s.tombstone_entities j 0))
    unfolding room
    tombstone-mark_tombstone j = rw marked (
        rw
          (
            ← (ensure_sparse-reads s (entity_index entity) j).1,
            ← (ensure_sparse-reads s (entity_index entity) j).3,
          )
          (tombstone-put room (entity_index entity) flags entity.value room-IsBuried nonzero
            room_inside j))

    pub mark_tombstone-IsBuried :
        length s.tombstone_indices < npos → IsBuried (mark_tombstone entity flags s)
    unfolding room ensure_sparse
    mark_tombstone-IsBuried h = rw marked (
        put-IsBuried room (entity_index entity) flags entity.value room-IsBuried nonzero room_inside
          h)
