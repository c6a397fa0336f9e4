-- ===== src/Jobs.antt =====
-- Jobs: src/jobs.cpp, and the parts of include/ashiato/ashiato.hpp that it uses.
pub mod Schedule
pub mod Ranges
pub mod Batch
