-- ===== src/Patch.antt =====
-- agent/src/codito_agent/patching.py: the patch grammar, text files, hunks, the preflight, the commit
-- with its journal, and the service that puts them together.
pub mod Types
pub mod Parser
pub mod TextFile
pub mod Hunks
pub mod Preflight
pub mod Commit
pub mod Recovery
pub mod Service
