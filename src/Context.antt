-- ===== src/Context.antt =====
-- harness/contextbuilder: the model request, built in memory.
pub mod Builder
pub mod Calls
pub mod Compaction
pub mod Invariant
pub mod Changes
pub mod Carried
pub mod Reached
pub mod Cutoff
