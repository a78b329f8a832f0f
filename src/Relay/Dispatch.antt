-- ===== src/Relay/Dispatch.antt =====
-- `dispatch_tool`. What it calls outside its file is in `Env`: the schemas and digests of
-- packages/protocol, the envelope, the signed project list, the transport. Between two steps of a
-- call other calls run: `meanwhile` and the transport change the tables.
use codito_mcp.Common.{
  ℕ, String, ◌+◌, Bool, true, false, not, ◌&&◌, ◌||◌, Option, none, some, if◌then◌else◌, ok, err,
  ◌>>=◌, ◌>>◌, raise_if, ◌==◌, nat_Eq, list_Eq, option_Eq, string_Eq, leb,
}
use codito_mcp.Db.Json.{Json, Fields, get_field, num}
use codito_mcp.Relay.Types.{
  ToolError, fatal, transient, Dispatched, Principal, Device, Operation, Store, cancelled, expired,
  outcome_unknown, in_progress, text_field,
}
use codito_mcp.Relay.Scopes.{
  required_scopes, with_project, holds_all, is_replay_unsafe, validate_arguments,
}
use codito_mcp.Relay.Results.{Contracts, validate_for_request, durable_tool_result}
use codito_mcp.Relay.Route.{lookup_route, is_connected}
use codito_mcp.Relay.Admission.{create_operation, new_operation}
use codito_mcp.Relay.Delivery.{mark_dispatched, finish, mark_delivery_failure}

-- how `publish_and_wait` ends: an answer, a `ToolDispatchError`, another exception
pub data Transported : Type 0 where
  answered : Fields → Transported
  refused : ToolError → Transported
  broken : Transported

-- Times are seconds; `fresh` is the new row's primary key.
pub record Env : Type 0 where
  pub schema : String → Fields → Dispatched Fields
  pub action_digest : String → Fields → String
  pub request_digest : Fields → String
  pub list_projects : String → Fields → Dispatched Fields
  pub envelope_is_valid : Operation → Bool
  pub contracts : Contracts
  pub meanwhile : Store → Store
  pub transport : String → Operation → Store → Transported × Store
  pub now : ℕ
  pub created_at : ℕ
  pub fresh : String
  pub offline_after : ℕ
  pub queue_limit : ℕ
  pub operation_timeout : ℕ
  pub frontend_start_timeout : ℕ

pub record Receipt : Type 0 where
  pub operation_id : String
  pub result : Fields

unfoldable pub max : ℕ → ℕ → ℕ
max a b = if leb a b then b else a

unfoldable pub min : ℕ → ℕ → ℕ
min a b = if leb a b then a else b

-- `int(arguments.get("ready_timeout_seconds", 30))`
unfoldable pub ready_timeout : Option Json → ℕ
ready_timeout (some (num n)) = n
ready_timeout _ = 30

unfoldable pub timeout_seconds : Env → String → Fields → ℕ
timeout_seconds env tool args =
    if tool == "project_frontend" && text_field "operation" args == "session_start"
    then max env.operation_timeout (
        min
          (max (env.frontend_start_timeout + ready_timeout (get_field "ready_timeout_seconds" args))
            60)
          420)
    else env.operation_timeout

-- `terminal_codes.get(operation.status, operation.error_code or "protocol_error")`
unfoldable pub terminal_code : Operation → String
terminal_code row = elim row.status [
  | cancelled ↦ "cancelled"
  | expired ↦ "operation_timeout"
  | outcome_unknown ↦ "outcome_unknown"
  | _ ↦ if row.error_code == "" then "protocol_error" else row.error_code
]

-- an operation that was there already
unfoldable pub replay : String → Operation → Dispatched Receipt
replay id row = elim row.result [
  | some result ↦ ok (record { operation_id = id; result = result })
  | none ↦
      if in_progress row.status
      then err (transient "operation_in_progress")
      else err (record {
        code = terminal_code row;
        retryable =
            terminal_code row == "device_offline" || terminal_code row == "operation_timeout";
      })
]

-- Ends the call with an error that the row records.
abbrev pub fail : String → ToolError → Store → Dispatched Receipt × Store
fail id e s = (err e, mark_delivery_failure id e s)

-- The error that a caller sees when the transport raised one.
unfoldable pub mapped_refusal : Bool → ToolError → ToolError
mapped_refusal unsafe e =
    if unsafe && not (e.code == "device_offline") then fatal "outcome_unknown" else e

unfoldable pub mapped_breakage : Bool → ToolError
mapped_breakage unsafe = if unsafe then fatal "outcome_unknown" else transient "relay_unavailable"

unfoldable pub mapped_invalid : Bool → ToolError → ToolError
mapped_invalid unsafe e = if unsafe then fatal "outcome_unknown" else e

unfoldable pub settle :
    Env → String → Fields → String → Transported → Store → Dispatched Receipt × Store
settle env tool args id (refused e) s = fail id (mapped_refusal (is_replay_unsafe tool args) e) s
settle env tool args id broken s = fail id (mapped_breakage (is_replay_unsafe tool args)) s
settle env tool args id (answered result) s =
    elim (validate_for_request env.contracts tool args result) [
      | err e ↦ fail id (mapped_invalid (is_replay_unsafe tool args) e) s
      | ok valid ↦ (
        ok (record { operation_id = id; result = valid }),
        finish id valid (durable_tool_result env.contracts valid) s,
      )
    ]

-- the part that follows the creation of a row
unfoldable pub deliver :
    Env → String → Fields → String → Operation → Store → Dispatched Receipt × Store
deliver env tool args id row s =
    if env.envelope_is_valid row
    then (let sent = env.transport row.scope.device row (mark_dispatched id s) in
        settle env tool args id sent.0 sent.1)
    else fail id (fatal "protocol_error") s

unfoldable pub run_created :
    Env
    → String
    → Fields
    → Dispatched ((String × Operation) × Bool) × Store
    → Dispatched Receipt × Store
run_created env tool args (err e, s) = (err e, s)
run_created env tool args (ok ((id, row), false), s) = (replay id row, s)
run_created env tool args (ok ((id, row), true), s) = deliver env tool args id row s

unfoldable pub create :
    Env → Principal → String → Fields → Device → Option String → Store → Dispatched Receipt × Store
create env p tool args device project s = run_created env tool args (
    create_operation env.queue_limit env.fresh p
      (new_operation p device project tool args (env.action_digest tool args)
        (env.request_digest args) (env.created_at + timeout_seconds env tool args))
      s (env.meanwhile s))

unfoldable pub is_local : String → Fields → Bool
is_local tool args =
    (tool == "project_read" && text_field "operation" args == "list_projects")
    || (tool == "project_manage" && text_field "operation" args == "get_projects")

-- the scopes of a call, all of which the principal must hold
unfoldable pub authorize : Principal → String → Fields → Dispatched (Unit {0})
authorize p tool args = required_scopes tool (text_field "operation" args) >>= λ scopes.
    raise_if (not (holds_all p (with_project args scopes))) (fatal "insufficient_scope")

unfoldable pub admitted :
    Env → Principal → String → Fields → Store → Dispatched (Fields × (Device × Option String))
admitted env p tool raw s = validate_arguments env.schema tool raw >>= λ args.
    authorize p tool args >> lookup_route p tool args s >>= λ route. ok (args, route)

unfoldable pub dispatch_tool :
    Env → Principal → String → Fields → Store → Dispatched Receipt × Store
dispatch_tool env p tool raw s = elim (admitted env p tool raw s) [
  | err e ↦ (err e, s)
  | ok (args, (device, project)) ↦
      if is_local tool args
      then (
        env.list_projects tool args >>= λ result.
            ok (record { operation_id = "local"; result = result }),
        s,
      )
      else if not (is_connected env.now env.offline_after device)
      then (err (transient "device_offline"), s)
      else create env p tool args device project s
]

unfoldable pub dispatch_program : Unit {0}
unfolding dispatch_tool admitted validate_arguments codito_mcp.Relay.Scopes.has_field get_field
    authorize required_scopes holds_all with_project text_field codito_mcp.Relay.Types.text_of
    lookup_route codito_mcp.Relay.Route.find_device codito_mcp.Common.Dict.lookup
    codito_mcp.Relay.Route.route_project codito_mcp.Relay.Route.needs_no_project
    codito_mcp.Relay.Route.is_device_tool is_local codito_mcp.Common.Dict.insert
    codito_mcp.Relay.Admission.admission create_operation codito_mcp.Relay.Admission.existing
    codito_mcp.Relay.Admission.find_scope codito_mcp.Relay.Admission.is_pending
    codito_mcp.Relay.Admission.locked_admission new_operation
    codito_mcp.Relay.Admission.pending_count codito_mcp.Relay.Admission.same_action
    codito_mcp.Relay.Admission.scope_of codito_mcp.Relay.Delivery.failure_status finish
    codito_mcp.Relay.Delivery.is_accepted codito_mcp.Relay.Delivery.is_true mark_delivery_failure
    mark_dispatched codito_mcp.Relay.Delivery.terminal_status codito_mcp.Relay.Delivery.update_where
    create deliver mapped_breakage mapped_invalid mapped_refusal max min ready_timeout replay
    run_created settle terminal_code timeout_seconds codito_mcp.Relay.Route.find_project
    is_connected codito_mcp.Relay.Route.is_reachable codito_mcp.Relay.Route.seen_recently
    codito_mcp.Relay.Scopes.code_scopes codito_mcp.Relay.Scopes.frontend_scopes is_replay_unsafe
    in_progress codito_mcp.Relay.Types.scope_eq codito_mcp.Relay.Types.is_online
dispatch_program = tt
