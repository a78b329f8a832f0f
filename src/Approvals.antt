-- ===== src/Approvals.antt =====
-- `ApprovalManager` of agent/src/codito_agent/approvals.py. Each method runs under the manager's
-- lock, or in stretches that do; `request` gives the lock up while the local user is asked, so the
-- prompt is an argument: what the user answers, and the manager that other calls leave meanwhile.
-- Every reading of the clock is an argument, in microseconds. `action_digest` is one too: it hashes.
pub mod Types
pub mod Grants
pub mod Saved
pub mod Request
pub mod Revocation
pub mod Policy
pub mod Given
pub mod Earlier
pub mod Outcome
pub mod Forgotten
