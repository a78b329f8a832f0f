-- ===== src/Client/Work.antt =====
-- `_dispatch`: the task of an operation, from its start to its terminal result. A task begins, calls
-- its handler, and completes; other turns of the client come in between.
use codito_mcp.Common.{
  String, Bool, true, false, ◌||◌, Option, none, some, List, [], ◌∷◌, if◌then◌else◌, ok, err, ◌==◌,
  nat_Eq, list_Eq, option_Eq, string_Eq, leb,
}
use codito_mcp.Common.Dict.{remove}
use codito_mcp.Models.{
  OperationState, running as running_state, succeeded, failed, denied, outcome_unknown,
}
use codito_mcp.Db.Json.{Fields, obj, bool, str, field, end_fields}
use codito_mcp.Db.Operations.{transition_operation}
use codito_mcp.Relay.Results.{durable_tool_result}
use codito_mcp.Relay.Tunnel.Types.{Envelope, operation_started}
use codito_mcp.Client.WireErrors.{LocalError, to_tool_failure}
use codito_mcp.Client.Types.{Moment, Budget, Agent, Setting}
use codito_mcp.Client.Send.{Outgoing, result_of}
use codito_mcp.Client.Receive.{Turn}
use codito_mcp.Client.Request.{local_error}
use codito_mcp.Client.Accept.{emit}

-- how a handler ends: a response, a timeout, an `AgentError`, another exception
pub data Handled : Type 0 where
  responded : Fields → String → Handled
  timed_out : Handled
  raised : LocalError → Handled
  broke : Handled

unfoldable pub is_elapsed : Moment → Budget → Bool
is_elapsed now b = leb b.monotonic_deadline now.monotonic || leb b.local_deadline now.wall

-- `deadline_error()`; `uncertain` says that a native action's handler has started
unfoldable pub deadline_error : Bool → LocalError
deadline_error uncertain =
    if uncertain
    then local_error "outcome_unknown"
        "The native action exceeded its response budget and may have executed; Codito never automatically replays uncertain actions"
        false
    else local_error "deadline_exceeded" "Operation execution budget elapsed" false

unfoldable pub failed_state : LocalError → OperationState
failed_state e =
    if e.code == "approval_denied"
    then denied
    else if e.code == "outcome_unknown"
    then outcome_unknown
    else failed

-- the state and the payload of an `AgentError`
abbrev pub failure : LocalError → Option String → OperationState × Fields
failure e correlation = (failed_state e, to_tool_failure e correlation)

unfoldable pub of_deadline : Bool → LocalError → LocalError
of_deadline uncertain e = if e.code == "deadline_exceeded" then deadline_error uncertain else e

abbrev pub success_payload : Fields → String → Fields
success_payload structured text =
    field "ok" (bool true) (field "result" (obj structured) (field "text" (str text) end_fields))

-- what becomes of a handler's end; `late` says that the budget elapsed during it
unfoldable pub outcome : Bool → Bool → Option String → Handled → OperationState × Fields
outcome uncertain late correlation (responded structured text) =
    if late
    then failure (deadline_error uncertain) correlation
    else (succeeded, success_payload structured text)
outcome uncertain late correlation timed_out = failure (deadline_error uncertain) correlation
outcome uncertain late correlation (raised e) = failure (of_deadline uncertain e) correlation
outcome uncertain late correlation broke = (
  failed,
  to_tool_failure (local_error "internal_error" "The device operation failed" false) correlation,
)

-- the terminal result is stored, then sent
unfoldable pub complete : Setting → Envelope → OperationState × Fields → Agent → Turn
complete set e (state, payload) a =
    let moved =
      transition_operation e.message_id state
        (some (obj (durable_tool_result set.contracts payload))) set.written_at a.operations in
    let after = record a {
      operations = moved.1;
      client = record a.client { budgets = remove e.message_id a.client.budgets };
    } in
    elim moved.0 [
      | err error ↦ (err error, record a { operations = moved.1 })
      | ok _ ↦ (let out = emit set (result_of e payload) after in (ok out.0, out.1))
    ]

-- `OPERATION_STARTED`
abbrev pub started_message : Envelope → Outgoing
started_message e = record {
  kind = operation_started;
  payload = end_fields;
  correlation_id = e.correlation_id;
  bindings = some e.bindings;
  action_digest = e.action_digest;
  is_terminal = false;
}

-- A task begins. It calls its handler after this, unless its budget had elapsed.
unfoldable pub begin_task : Setting → Moment → Envelope → Budget → Agent → Turn
begin_task set now e budget a =
    let moved = transition_operation e.message_id running_state none set.written_at a.operations in
    let after = record a { operations = moved.1 } in
    elim moved.0 [
      | err error ↦ (err error, after)
      | ok _ ↦
          if is_elapsed now budget
          then complete set e (failure (deadline_error false) e.correlation_id) after
          else (let out = emit set (started_message e) after in (ok out.0, out.1))
    ]

-- the end of a task: `_pending` and `_operation_tasks` forget it
unfoldable pub drop_task : String → List String → List String
drop_task id [] = []
drop_task id (t ∷ tasks) = let rest = drop_task id tasks in if t == id then rest else t ∷ rest

unfoldable pub task_done : String → Agent → Agent
task_done id a = record a { client = record a.client { running = drop_task id a.client.running } }
