-- ===== src/Relay/Tunnel/Record.antt =====
-- `_normalize_operation_terminal` and `_record_device_message`: what
-- a message of a device does to its operation. A request's `input` is a dictionary in every row.
use codito_mcp.Common.{
  ℕ, String, Bool, true, false, not, ◌&&◌, ◌||◌, Option, none, some, [], ◌∷◌, ◌++◌, if◌then◌else◌,
  ok, err, ◌==◌, nat_Eq, list_Eq, option_Eq, string_Eq, leb, is_some,
}
use Prim.Native.String.{◌++◌ as str_append}
use codito_mcp.Common.Dict.{insert}
use codito_mcp.Db.Json.{Json, Fields, get_field, bool, str, obj, end_fields, field}
use codito_mcp.Relay.Types.{
  Status, accepted, dispatched, received, running, succeeded, failed, outcome_unknown, expired,
  cancelled, in_progress, Operation, text_field, Dispatched,
}
use codito_mcp.Relay.Scopes.{is_replay_unsafe}
use codito_mcp.Relay.Delivery.{is_true}
use codito_mcp.Relay.Results.{
  is_literal, dict_of, json_eq, validate_for_request, durable_tool_result, is_text,
}
use codito_mcp.Relay.Tunnel.Types.{
  MessageKind, operation_received, operation_started, operation_result, terminal_ack, Envelope,
  Connection, Row, Tables, World, Checked, value_error,
}
use codito_mcp.Relay.Tunnel.Binding.{validate_operation_binding}

unfoldable pub uncertainty_message : String → Fields → String
uncertainty_message tool args =
    if tool == "device_desktop"
    then "The browser action may have executed; do not automatically retry it"
    else if tool == "project_frontend" && text_field "operation" args == "session_start"
    then "The frontend session may have started; do not automatically start it again"
    else if tool == "project_frontend"
    then "The browser interaction may have executed; do not automatically retry it"
    else "The shell command may have started; do not automatically resubmit it"

unfoldable pub failure_payload : String → String → String → Bool → Fields
failure_payload code message correlation retryable = field "ok" (bool false) (
    field "text" (str message) (
      field "error"
        (obj (
          field "code" (str code) (
            field "message" (str message) (
              field "retryable" (bool retryable) (
                field "correlation_id" (str correlation)
                  (field "details" (obj end_fields) end_fields))))))
        end_fields))

unfoldable pub is_unsafe : Row → Bool
is_unsafe row = is_replay_unsafe row.operation.scope.kind row.operation.request_payload.1

-- the failure that replaces a result that is not one of the request
unfoldable pub invalid_payload : Row → Fields
invalid_payload row =
    if is_unsafe row
    then failure_payload "outcome_unknown"
        (str_append "The device returned an invalid result. "
          (uncertainty_message row.operation.scope.kind row.operation.request_payload.1))
        row.correlation_id false
    else failure_payload "internal_error"
        "The device returned an invalid or request-mismatched result; it was discarded"
        row.correlation_id false

unfoldable pub validate_payload : World → Row → Fields → Dispatched Fields
validate_payload w row payload =
    validate_for_request w.contracts row.operation.scope.kind row.operation.request_payload.1
      payload

unfoldable pub normalized : World → Row → Fields → Fields
normalized w row payload = elim (validate_payload w row payload) [
  | ok valid ↦ valid
  | err _ ↦ invalid_payload row
]

unfoldable pub is_result : MessageKind → Bool
is_result operation_result = true
is_result _ = false

-- `_normalize_operation_terminal`, where the message is a result
unfoldable pub normalize : World → Row → Envelope → Envelope
normalize w row e =
    if is_result e.kind then record e { payload = normalized w row e.payload } else e

-- `isinstance(error, dict) and error.get("code") == code`
unfoldable pub has_code : String → Option Fields → Bool
has_code code none = false
has_code code (some error) = is_text code (get_field "code" error)

unfoldable pub is_uncertain : Row → Fields → Bool
is_uncertain row payload =
    is_unsafe row && has_code "outcome_unknown" (dict_of (get_field "error" payload))

unfoldable pub ended_as : Bool → Fields → Status
ended_as uncertain payload =
    if uncertain
    then outcome_unknown
    else if is_literal false (get_field "ok" payload) || is_true (get_field "error" payload)
    then failed
    else succeeded

-- `str(error.get("code", "device_error"))`
unfoldable pub code_text : World → Option Json → String
code_text w none = "device_error"
code_text w (some (str code)) = code
code_text w (some j) = w.show j

unfoldable pub error_code_of : World → Fields → String
error_code_of w payload = elim (dict_of (get_field "error" payload)) [
  | none ↦ ""
  | some error ↦ code_text w (get_field "code" error)
]

-- `states.get(envelope.kind)`
unfoldable pub reported : Row → Envelope → Option Status
reported row e = elim e.kind [
  | operation_received ↦ some received
  | operation_started ↦ some running
  | operation_result ↦ some (ended_as (is_uncertain row e.payload) e.payload)
  | terminal_ack ↦ some row.operation.status
  | _ ↦ none
]

-- `state_rank.get(status, 0)`
unfoldable pub rank : Status → ℕ
rank accepted = 0
rank dispatched = 1
rank received = 2
rank running = 3
rank succeeded = 4
rank failed = 4
rank outcome_unknown = 4
rank cancelled = 0
rank expired = 0

unfoldable pub advance : Option Status → Status → Status
advance none old = old
advance (some new) old = if leb (rank old) (rank new) then new else old

unfoldable pub is_stale : Connection → Envelope → Row → Bool
is_stale c e row =
    row.last_device_sequence_epoch == c.epoch && leb e.sequence row.last_device_sequence

-- `operation.result == durable_tool_result(payload)`
unfoldable pub has_result : World → Option Fields → Fields → Bool
has_result w none payload = false
has_result w (some result) payload =
    json_eq (obj result) (obj (durable_tool_result w.contracts payload))

abbrev pub seen : Connection → Envelope → Operation → Row → Row
seen c e op row = record row {
  operation = record op { connection_epoch = c.epoch };
  last_device_sequence = e.sequence;
  last_device_sequence_epoch = c.epoch;
}

-- the operation with a result of its device
abbrev pub with_result : World → Status → Fields → Operation → Operation
with_result w status payload op = record op {
  status = status;
  result = some (durable_tool_result w.contracts payload);
  error_code = error_code_of w payload;
}

-- What a message makes of an operation that has not ended.
unfoldable pub live_row : World → Connection → Envelope → Row → Row
live_row w c e row =
    let status = advance (reported row e) row.operation.status in
    seen c e
      (if is_result e.kind
        then with_result w status e.payload row.operation
        else record row.operation { status = status })
      row

-- an end that the relay made up while it could not ask the device
unfoldable pub is_reconcilable : Operation → Bool
is_reconcilable op =
    not (is_some op.result)
    && (op.error_code == "device_offline"
        || op.error_code == "operation_timeout"
        || op.error_code == "outcome_unknown"
        || op.error_code == "relay_unavailable")

abbrev pub Recorded : Type 0
Recorded = Checked (Envelope × (String × Row)) × Tables

abbrev pub save_row : String → Row → Tables → Tables
save_row id row s = record s { rows = insert id row s.rows }

unfoldable pub late_row : World → Connection → Envelope → Row → Fields → Row
late_row w c e row valid =
    seen c e (with_result w (ended_as (is_uncertain row e.payload) valid) valid row.operation) row

-- a late terminal that takes the place of an end that the relay made up
unfoldable pub reconcile : World → Connection → Envelope → String → Row → Tables → Recorded
reconcile w c e id row s = elim (validate_payload w row e.payload) [
  | err _ ↦ (err value_error, s)
  | ok valid ↦
      let new = late_row w c e row valid in
      (ok (e, (id, new)), record (save_row id new s) { audit = s.audit ++ (id ∷ []) })
]

unfoldable pub record_ended : World → Connection → Envelope → String → Row → Tables → Recorded
record_ended w c e id row s =
    if not (is_result e.kind) || has_result w row.operation.result e.payload
    then (ok (e, (id, row)), s)
    else if is_reconcilable row.operation
    then reconcile w c e id row s
    else (err value_error, s)

unfoldable pub record_fresh : World → Connection → Envelope → String → Row → Tables → Recorded
record_fresh w c e id row s =
    if in_progress row.operation.status
    then (let new = live_row w c e row in (ok (e, (id, new)), save_row id new s))
    else record_ended w c e id row s

-- an exact repetition of a result that is stored, and nothing else
unfoldable pub record_stale : World → Envelope → String → Row → Tables → Recorded
record_stale w e id row s =
    if not (in_progress row.operation.status)
      && is_result e.kind
      && has_result w row.operation.result e.payload
    then (ok (e, (id, row)), s)
    else (err value_error, s)

unfoldable pub record_device_message : World → Connection → Envelope → Tables → Recorded
record_device_message w c e s = elim (validate_operation_binding c e s) [
  | err refusal ↦ (err refusal, s)
  | ok (id, row) ↦
      if is_stale c e row
      then record_stale w (normalize w row e) id row s
      else record_fresh w c (normalize w row e) id row s
]
