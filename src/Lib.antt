-- ===== src/Lib.antt =====
-- A model of the core of ashiato, an entity component system in C++, and theorems about it.
--
-- The program. A registry (include/ashiato/ashiato.hpp, src/ashiato.cpp) gives out entities, which
-- are 64-bit handles of a slot index and a version. Each component has one storage
-- (`Registry::TypeErasedStorage`, src/storage.cpp): a sparse set of the indices that have the
-- component, with flags for what is dirty or newly added and tombstones for what was removed. A group
-- (src/groups.cpp) owns components, and keeps the indices that have all of them in front of each
-- of their storages, in one order. Jobs (src/jobs.cpp) run over the entities of their components; they are put into stages by the
-- components that they read and write, and a stage may split a job over threads, whose dirty marks
-- are collected and merged afterwards. Snapshots (src/snapshot.cpp) copy the registry, in full or by what
-- is dirty, and are restored into another. Values are written to the network as bits
-- (include/ashiato/bit_buffer.hpp).
--
-- The files.
--   Base: lists as vectors, Boolean tests, errors as values, counts of set flags.
--   EntityStore: `struct EntityStore` with `create`, `alive`, the end of `destroy` (`retire`) and
--     `rebuild_free_list`. Its children hold the invariant, in which the free list is a chain through
--     the slots, and the theorems of each operation.
--   Storage: the fields of `TypeErasedStorage`; its children Flags, Tombstones, Insert, Erase, Access,
--     Swap, Copies and Deferred have its operations under their names in the source, and the children
--     of Laws the invariant and the theorems. A value of a component is an element of a type `V`,
--     what a pointer leads to is an `Option V`, and a thrown exception is an `err`. The storage has
--     a list of values for the bytes of `data_`.
--   Registry: the catalogue of the components, the storages and the groups as one record. Its children
--     are Catalog for the records of the components and their registration, Groups for src/groups.cpp,
--     Components for adding, removing, writing and marking components and for `destroy`, and Hooks
--     for the subscribed lifecycle hooks; Packing has the invariant of the groups. A group's address
--     is a number.
--   Jobs: Schedule is `Orchestrator::build_schedule` with the functions it calls, over jobs that are
--     sorted; Ranges is the split over threads in `JobGraph::tick`; Batch has the guarded tasks and
--     the check that the executor kept its contract, as steps of calls that interleave; its child
--     Sequential is the branch without an executor.
--     `Registry::merge_deferred_dirty_writes` stands in Storage/Laws/Merge.
--   BitBuffer: `BitBuffer`, with its writes in Write and its reads in Read, LittleEndian for the
--     typed wrappers, and the theorems in Bits, Append and RoundTrip.
--   Snapshots: what a snapshot leaves out (of src/ashiato.cpp) and, of src/snapshot.cpp, Create and Restore
--     for snapshots and deltas, Tracker for `DirtySnapshotTracker`, Broadcast for the
--     broadcaster of dirty frames and its subscriptions, as sequences of events that nest, and Frames
--     for the frames of the persistent form.
--   Tests: each theorem at a concrete input.
--
-- Numbers. Handles, slots, bytes and words are natural numbers, with the wrap at 32, 64 or 8 bits
-- written out where the source can reach it. Where halves do not overlap, `|` is a sum. The
-- theorems on storages assume room for one more entry (`size + 1 < npos`), past which the source's
-- 32-bit positions do not reach; `stale-dead` assumes that the 32-bit version of the handle does not
-- wrap, and the theorems on histories of subscriptions that their 64-bit counters do not. Of the
-- sizes of type `std::size_t` those that come from outside, of a field, of a frame and of
-- `read_bytes`, wrap. No function needs fuel: each loop recurs on its
-- count or on its list.
--
-- Not modelled. Allocation that fails, exceptions of a user's copy or move, moves and destructors of
-- storages; the checks that a debug build adds; the order of memory operations beyond their
-- interleaving; null pointers given to the bit buffer. Of the registry, the
-- typed bindings and the printing of values; of a restoration that throws, what it leaves behind.
-- What stands in a serialized snapshot, the views and the builders of jobs are left out. The debug
-- server does input and output only.
pub mod Base
pub mod EntityStore
pub mod Storage
pub mod Registry
pub mod Jobs
pub mod BitBuffer
pub mod Snapshots
mod Tests
