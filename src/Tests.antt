-- ===== src/Tests.antt =====
-- The theorems at concrete inputs.
mod Entities
mod Storages
mod Runs
mod Registries
mod Callbacks
mod Frames
mod Copies
