-- ===== src/Coordinator.antt =====
-- harness/coordinator/loop.go: the owner of a session's event loop.
pub mod Load
pub mod State
pub mod Local
pub mod Counts
pub mod Handlers
pub mod Steps
pub mod Reconcile
pub mod Schedule
pub mod Loop
pub mod Carries
pub mod Runs
pub mod Recorded
pub mod Asked
pub mod Closing
pub mod Stops
pub mod Noted
pub mod Translated
pub mod Noting
pub mod Untranslated
pub mod Stopping
