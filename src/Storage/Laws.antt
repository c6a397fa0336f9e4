-- ===== src/Storage/Laws.antt =====
-- What the operations of a storage keep and what they change.
pub mod Invariant
pub mod Marks
pub mod Erase
pub mod Insert
pub mod Swap
pub mod Position
pub mod Tombs
pub mod Buried
pub mod Frame
pub mod Marked
pub mod Put
pub mod Flagged
pub mod Cleared
pub mod Merge
pub mod Gone
