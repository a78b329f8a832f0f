-- ===== src/Patch/Service.antt =====
-- `PatchService.apply`, `reconcile_duplicate` and what they call, of
-- agent/src/codito_agent/patching.py: the composition of the parser, the preflight, the commit, its
-- journal, the gate and the idempotency table.
pub mod Types
pub mod Hashes
pub mod Preconditions
pub mod Journals
pub mod Apply
pub mod Duplicate
pub mod Holding
pub mod Kept
pub mod Recorded
pub mod Replayed
pub mod Aborted
pub mod Undone
pub mod Interrupted
pub mod Reconciled
pub mod Crashed
pub mod Redelivered
pub mod Announced
pub mod Startup
