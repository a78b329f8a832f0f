-- ===== src/Lib.antt =====
-- Codito connects a coding assistant to projects on a Windows machine. The relay (a Django service)
-- receives tool calls over MCP, checks what the caller may do, gives each call a row and a place in
-- its device's queue, and sends it through a tunnel. The agent on the device records the receipt,
-- asks the local user where the project's mode wants it, runs the operation under a gate that lets
-- one mutation into a workspace at a time, and keeps the result until the relay acknowledges it.
--
-- Which file models what (paths from the repository's root):
--   Common, Text     shared tests, lists, results, dictionaries; `str`, `bytes`, UTF-8, `splitlines`
--   Errors, Models   agent/src/codito_agent/errors.py and models.py
--   Paths            agent/src/codito_agent/paths.py: `validate_relative_path`
--   Patch            agent/src/codito_agent/patching.py: `AnchoredPatchParser`, `_TextFile`,
--                    `_apply_hunks`, `_preflight`, the writing half of `_commit`, `_restore`;
--                    Recovery: the journal, a crash at any point of a commit, `recover`;
--                    Service: `apply` and `reconcile_duplicate`, which put these together with the
--                    gate and the idempotency table
--   Gate             agent/src/codito_agent/operation_gate.py: `ProjectOperationGate`
--   Db               agent/src/codito_agent/db.py: `AgentDatabase`, a module per table;
--                    Activity: what a receipt keeps of a request
--   Approvals        agent/src/codito_agent/approvals.py: `ApprovalManager`; Approvals/Policy is
--                    agent/src/codito_agent/access_policy.py; Given and Earlier say what an
--                    approval rests on, apart from the code that decides it
--   Relay            relay/codito_relay/core/dispatch.py: `_required_scopes`, `_lookup_route`,
--                    `_create_operation`, `_finish` and what is beside it, `dispatch_tool`;
--                    Relay/Results: the binding of results to requests, `durable_tool_result`;
--                    Relay/Listing: `_list_projects`; Relay/Transport: the wait for a result;
--                    Relay/Needs and Relay/Routed: the scopes and the targets of calls, as tables
--                    and conditions apart from the code
--   Relay/Tunnel     relay/codito_relay/core/websocket.py: tickets and epochs, a device's messages,
--                    deliveries, projects, a turn of the receive loop. Machine has all the steps
--                    that the relay's tables take, those of dispatch.py included, and Moves the
--                    abstract operation that they refine
--   Client           agent/src/codito_agent/websocket_client.py and wire_errors.py: execution
--                    budgets, the receipt of an operation, redeliveries, tasks, results and their
--                    acknowledgement. Machine has the steps of a device: envelopes, tasks that
--                    begin and end, new connections, crashes
--   Shell            agent/src/codito_agent/shell.py: `_append`, `_poll_result`,
--                    `_page_durable_result`
--   Tests            runs and the theorems at concrete inputs
--
-- State is passed explicitly: a method takes the state it reads and returns its result, an
-- exception included, with the state it leaves. A table is a dictionary by its primary key. Clocks,
-- fresh identifiers, digests, the user's answer, the transport and what other threads do meanwhile
-- are arguments. Numbers are natural; times are counted from one epoch, a difference that would be
-- negative is 0, and every bound that is compared with one is positive. The parser's two loops
-- over sections and hunks recurse on fuel, the number of lines left: each turn takes at least one.
-- The database's methods that run two transactions in a row are one step here.
--
-- Not modelled: the file system, Windows handles and processes; browser sessions and windows; the
-- language servers; sockets and the loops that wait on them, the publishing to Redis, OAuth and
-- Django views of the relay; the schemas of packages/protocol, which are arguments where they are
-- called; migrations of the agent's database; journals whose manifest cannot be read; the start
-- and the cancelling of shell jobs; the views that shape rows for a window.
pub mod Common
pub mod Text
pub mod Errors
pub mod Paths
pub mod Patch
pub mod Models
pub mod Gate
pub mod Db
pub mod Approvals
pub mod Relay
pub mod Client
pub mod Shell
mod Tests
