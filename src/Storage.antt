-- ===== src/Storage.antt =====
-- `Registry::TypeErasedStorage` of src/storage.cpp: the sparse set of one component. The state is
-- here; its operations are in the children named for what they do.
pub mod Flags
pub mod Tombstones
pub mod Insert
pub mod Erase
pub mod Access
pub mod Swap
pub mod Copies
pub mod Deferred
pub mod Laws
use ashiato.Base.{
  ℕ, ◌^◌, ◌-◌, Bool, true, false, ◌&&◌, not, ◌==◌, if◌then◌else◌, List, [], length, get_or, ltb,
  Option, none, some,
}

-- `npos`
abbrev pub npos : ℕ
npos = 2 ^ 32 - 1

abbrev pub no_tombstone : ℕ
no_tombstone = 0

abbrev pub tombstone_dirty : ℕ
tombstone_dirty = 1

abbrev pub tombstone_destroy_entity : ℕ
tombstone_destroy_entity = 2

-- What the storage reads of `info_` and `lifecycle_`: is the component a tag, are its values plain
-- bytes, is there a copy constructor.
pub record Info : Type 0 where
  pub tag : Bool
  pub trivially_copyable : Bool
  pub copyable : Bool

-- `data_` is the list of the values constructed in it, in dense order; a tag has none. A value is
-- an element of `V`, which a copy, a move or a `memcpy` of its bytes carries over. The thread-local
-- pointer to the deferred writes is in `Deferred`.
pub record Storage (V : Type 0) : Type 0 where
  pub dense_indices : List ℕ
  pub sparse : List ℕ
  pub dirty : List ℕ
  pub added : List ℕ
  pub tombstones : List ℕ
  pub tombstone_indices : List ℕ
  pub tombstone_positions : List ℕ
  pub tombstone_entities : List ℕ
  pub values : List V
  pub size : ℕ
  pub capacity : ℕ
  pub dirty_count : ℕ
  pub added_count : ℕ
  pub tombstone_count : ℕ
  pub compact_lookup : Bool
  pub info : Info

module _ {V : Type 0} where
  -- `TypeErasedStorage(const ComponentRecord&)` and `TypeErasedStorage(ComponentInfo, ...)`
  unfoldable pub new : Info → Storage V
  new info = record {
    dense_indices = [];
    sparse = [];
    dirty = [];
    added = [];
    tombstones = [];
    tombstone_indices = [];
    tombstone_positions = [];
    tombstone_entities = [];
    values = [];
    size = 0;
    capacity = 0;
    dirty_count = 0;
    added_count = 0;
    tombstone_count = 0;
    compact_lookup = false;
    info = info;
  }

  -- `sparse_[index]` and `dense_indices_[dense]`
  abbrev pub sparse_at : Storage V → ℕ → ℕ
  sparse_at s index = get_or s.sparse index npos

  abbrev pub dense_index_at : Storage V → ℕ → ℕ
  dense_index_at s dense = get_or s.dense_indices dense npos

  -- also `contains_index`
  unfoldable pub contains : Storage V → ℕ → Bool
  contains s index =
      if ltb index (length s.sparse)
      then not (sparse_at s index == npos)
        && (ltb (sparse_at s index) s.size && dense_index_at s (sparse_at s index) == index)
      else false

  unfoldable pub dense_size : Storage V → ℕ
  dense_size s = s.size

  unfoldable pub dense_position : Storage V → ℕ → ℕ
  dense_position s index = if contains s index then sparse_at s index else npos
