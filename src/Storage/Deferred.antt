-- ===== src/Storage/Deferred.antt =====
-- src/storage.cpp: writes that mark their entry dirty, and the thread-local list that collects
-- these marks while a job runs on several threads.
use ashiato.Base.{
  ℕ, Bool, not, if◌then◌else◌, List, [], push_back, get_elem?, Option, none, some, Result, ok, err,
  logic_error,
}
use ashiato.EntityStore.{Entity, entity_index}
use ashiato.Storage.{Storage, sparse_at, contains}
use ashiato.Storage.Flags.{mark_dirty_dense}
use ashiato.Storage.Insert.{emplace_or_replace_bytes}

-- `struct DeferredDirtyWrite`, with the storage given by the index of its component.
pub record DeferredDirtyWrite : Type 0 where
  pub storage : ℕ
  pub index : ℕ

-- The thread-local variables: the list that `deferred_dirty_writes_` points to, if any, and
-- `defer_range_dirty_`.
pub record ThreadState : Type 0 where
  pub deferred_dirty_writes : Option (List DeferredDirtyWrite)
  pub defer_range_dirty : Bool

-- The constructor of `DeferredDirtyScope` over an empty list: the variables that it saves, and the
-- new ones.
unfoldable pub enter_scope : Bool → ThreadState → ThreadState × ThreadState
enter_scope defer_range_dirty t =
    (t, record { deferred_dirty_writes = some []; defer_range_dirty = defer_range_dirty })

-- Its destructor: the list that was collected, and the variables as they were.
unfoldable pub leave_scope : ThreadState → ThreadState → List DeferredDirtyWrite × ThreadState
leave_scope previous current =
    (elim current.deferred_dirty_writes [ none ↦ [] | some writes ↦ writes ], previous)

unfoldable pub range_dirty_deferred : ThreadState → Bool
range_dirty_deferred t = t.defer_range_dirty

module _ {V : Type 0} where
  unfoldable pub mark_dirty_or_defer : ℕ → ℕ → ℕ → ThreadState → Storage V → ThreadState × Storage V
  mark_dirty_or_defer component index dense t s = elim t.deferred_dirty_writes [
    | some writes ↦ (
      record t {
        deferred_dirty_writes =
            some (push_back writes (record { storage = component; index = index }));
      },
      s,
    )
    | none ↦ (t, mark_dirty_dense dense s)
  ]

  -- The value that the pointer leads to, and the states after the call.
  unfoldable pub write : ℕ → ℕ → ThreadState → Storage V → Option V × ThreadState × Storage V
  write component index t s =
      let (t', s') = mark_dirty_or_defer component index (sparse_at s index) t s in
      if not (contains s index)
      then (none, t, s)
      else if s.info.tag
      then (none, t', s')
      else (get_elem? s.values (sparse_at s index), t', s')

  unfoldable pub write_unchecked :
      ℕ → ℕ → ThreadState → Storage V → Option V × ThreadState × Storage V
  write_unchecked component index t s =
      let (t', s') = mark_dirty_or_defer component index (sparse_at s index) t s in
      (get_elem? s.values (sparse_at s index), t', s')

  unfoldable pub write_unchecked_without_dirty : ℕ → Storage V → Option V
  write_unchecked_without_dirty index s = get_elem? s.values (sparse_at s index)

  -- A component that is there is written; one that is missing is added as zero bytes.
  unfoldable pub ensure :
      V → ℕ → Entity → ThreadState → Storage V → Result (ThreadState × Storage V)
  ensure zero_bytes component entity t s =
      let (v, t', s') = write component (entity_index entity) t s in
      let added = emplace_or_replace_bytes zero_bytes entity none s' in
      if s.info.tag then err logic_error else elim v [
        | some _ ↦ ok (t', s')
        | none ↦ elim added [ err e ↦ err e | ok s'' ↦ ok (t', s'') ]
      ]
