-- ===== src/Db.antt =====
-- `AgentDatabase` of agent/src/codito_agent/db.py: each table is a dictionary by its primary key,
-- each method that runs in one transaction is one step. Times are the numbers that `_now()` is
-- called for.
pub mod Json
pub mod Activity
pub mod Projects
pub mod Operations
pub mod Idempotency
pub mod Settings
pub mod Permissions
