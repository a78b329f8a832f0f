-- ===== src/Client/Accept.antt =====
-- `_receive` on an operation that passed its checks, `_start_dispatch` and
-- `_terminalize_uncertain_action`.
use codito_mcp.Common.{
  String, Bool, true, false, not, ◌&&◌, ◌||◌, Option, none, some, List, [], ◌∷◌, ◌++◌,
  if◌then◌else◌, ok, err, ◌>>=◌, ◌==◌, nat_Eq, list_Eq, option_Eq, string_Eq, any,
}
use codito_mcp.Common.Dict.{lookup, insert}
use codito_mcp.Errors.{plain, protocol_error}
use codito_mcp.Models.{outcome_unknown}
use codito_mcp.Db.Json.{Fields, obj, bool, field, end_fields}
use codito_mcp.Db.Activity.{activity_safe_value}
use codito_mcp.Db.Operations.{Operation, record_received, transition_operation}
use codito_mcp.Relay.Results.{dict_of}
use codito_mcp.Relay.Types.{text_field}
use codito_mcp.Relay.Tunnel.Types.{
  Envelope, operation, operation_received, operation_cancel, heartbeat, heartbeat_ack, welcome,
}
use codito_mcp.Client.WireErrors.{LocalError, to_tool_failure}
use codito_mcp.Client.Types.{
  Received, Moment, Budget, not_given, at, budget_from, both_budgets, Agent, Setting, no_time,
}
use codito_mcp.Client.Send.{Outgoing, send_new, send_failure, result_of}
use codito_mcp.Client.Receive.{Effect, sends, starts, Turn, validate_bindings, receive_ack, is_ack}
use codito_mcp.Client.Request.{Request, prune_budgets, check_request, receipt_of, local_error}

-- `_start_dispatch`
unfoldable pub start_dispatch : String → Budget → Bool → Agent → List Effect × Agent
start_dispatch id budget reconcile a = (
  starts id budget reconcile ∷ [],
  record a {
    client = record a.client {
      running = id ∷ a.client.running;
      budgets = insert id budget a.client.budgets;
    };
  },
)

-- one envelope goes out
unfoldable pub emit : Setting → Outgoing → Agent → List Effect × Agent
emit set o a =
    let sent = send_new set o a.client in (sends sent.0 ∷ [], record a { client = sent.1 })

abbrev pub uncertain_error : LocalError
uncertain_error =
    local_error "outcome_unknown"
      "A prior native action may have executed; Codito never replays uncertain actions" false

-- `_terminalize_uncertain_action`
unfoldable pub terminalize : Setting → Envelope → Agent → Turn
terminalize set e a =
    let payload = to_tool_failure uncertain_error e.correlation_id in
    let moved =
      transition_operation e.message_id outcome_unknown (some (obj payload)) set.written_at
        a.operations in
    let after = record a { operations = moved.1 } in
    elim moved.0 [
      | err error ↦ (err error, after)
      | ok _ ↦ (let out = emit set (result_of e payload) after in (ok out.0, out.1))
    ]

-- the budget of a redelivery: never longer than the one of the receipt, or of the task before
unfoldable pub retried_budget :
    Received → Request → Moment → Option Operation → Option Budget → Budget
retried_budget r request now none none = budget_from request.deadline_at r.sent_at now no_time
retried_budget r request now (some row) none =
    budget_from request.deadline_at r.sent_at now (at row.received_at)
retried_budget r request now none (some old) =
    both_budgets (budget_from request.deadline_at r.sent_at now no_time) old
retried_budget r request now (some row) (some old) =
    both_budgets (budget_from request.deadline_at r.sent_at now (at row.received_at)) old

-- `prior.get("result")`, where it is not empty
unfoldable pub stored_payload : Option Operation → Option Fields
stored_payload none = none
stored_payload (some row) = elim (dict_of row.result) [
  | none ↦ none
  | some end_fields ↦ none
  | some (field k v fs) ↦ some (field k v fs)
]

-- `_is_uncertain_native_action`
unfoldable pub is_uncertain_native_action : String → Fields → Bool
is_uncertain_native_action tool input =
    tool == "device_desktop"
    || (tool == "project_shell" && text_field "action" input == "start")
    || (tool == "project_frontend"
        && (text_field "operation" input == "session_start"
            || text_field "operation" input == "act"))

unfoldable pub reconcile : Setting → Moment → Received → Request → Agent → Turn
reconcile set now r request a =
    let e = r.envelope in
    let prior = lookup e.message_id a.operations in
    elim (stored_payload prior) [
      | some payload ↦ (let out = emit set (result_of e payload) a in (ok out.0, out.1))
      | none ↦
          if any (λ t. t == e.message_id) a.client.running
          then (ok [], a)
          else if is_uncertain_native_action request.tool request.input
          then terminalize set e a
          else (let begun =
                start_dispatch e.message_id
                  (retried_budget r request now prior (lookup e.message_id a.client.budgets)) true
                  a in
              (ok begun.0, begun.1))
    ]

-- `OPERATION_RECEIVED`
abbrev pub receipt_message : Envelope → Bool → Outgoing
receipt_message e inserted = record {
  kind = operation_received;
  payload = field "duplicate" (bool (not inserted)) end_fields;
  correlation_id = e.correlation_id;
  bindings = some e.bindings;
  action_digest = e.action_digest;
  is_terminal = false;
}

unfoldable pub after_receipt : Setting → Moment → Received → Request → Bool → Agent → Turn
after_receipt set now r request inserted a =
    if inserted
    then (let begun =
          start_dispatch r.envelope.message_id
            (budget_from request.deadline_at r.sent_at now not_given) false a in
        (ok begun.0, begun.1))
    else reconcile set now r request a

-- what a turn sends, in front of what follows it
abbrev pub before_turn : List Effect → Turn → Turn
before_turn effects (result, a) = (result >>= λ more. ok (effects ++ more), a)

unfoldable pub accept_request : Setting → Moment → Received → Request → Agent → Turn
accept_request set now r request a =
    let e = r.envelope in
    let recorded =
      record_received set.projects e.message_id (receipt_of set e request)
        (some (activity_safe_value set.contracts.casefold (obj request.input))) a.client.epoch
        set.written_at a.operations in
    let after = record a { operations = recorded.1 } in
    elim recorded.0 [
      | err error ↦ (err error, after)
      | ok inserted ↦
          let out = emit set (receipt_message e inserted) after in
          before_turn out.0 (after_receipt set now r request inserted out.1)
    ]

unfoldable pub receive_operation : Setting → Moment → Received → Agent → Turn
receive_operation set now r a =
    let c = record a.client { budgets = prune_budgets now a.client.running a.client.budgets } in
    let pruned = record a { client = c } in
    elim (check_request set now r.envelope c) [
      | err error ↦
          let sent = send_failure set r.envelope error c in
          (ok (sends sent.0 ∷ []), record pruned { client = sent.1 })
      | ok request ↦ accept_request set now r request pruned
    ]

-- the reply to a heartbeat
abbrev pub heartbeat_reply : Envelope → Outgoing
heartbeat_reply e = record {
  kind = heartbeat_ack;
  payload = end_fields;
  correlation_id = some e.message_id;
  bindings = none;
  action_digest = none;
  is_terminal = false;
}

unfoldable pub receive_kind : Setting → Moment → Received → Agent → Turn
receive_kind set now r a = elim r.envelope.kind [
  | heartbeat ↦ (let out = emit set (heartbeat_reply r.envelope) a in (ok out.0, out.1))
  | heartbeat_ack ↦ (ok [], a)
  | welcome ↦ (ok [], a)
  | operation_cancel ↦ (ok [], a)
  | operation ↦ receive_operation set now r a
  | _ ↦ (err (plain protocol_error), a)
]

-- An acknowledgement with a correlation id that is not empty is one of a result.
unfoldable pub ack_of : Envelope → Option String
ack_of e = if is_ack e.kind && not (e.correlation_id == some "") then e.correlation_id else none

-- `_receive`, after the envelope was validated
unfoldable pub receive : Setting → Moment → Received → Agent → Turn
receive set now r a = elim (validate_bindings a.client r.envelope) [
  | err error ↦ (err error, a)
  | ok _ ↦ elim (ack_of r.envelope) [
    | some correlation ↦ receive_ack set correlation r.envelope a
    | none ↦ receive_kind set now r a
  ]
]
