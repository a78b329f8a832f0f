-- ===== src/Relay/Tunnel/Prepare.antt =====
-- `_prepare_operation_dispatch`, `_mark_operation_sent`, `_recoverable_operation_correlations` and
-- `_terminal_ack`: what the relay sends to a device.
use codito_mcp.Common.{
  ℕ, String, ◌+◌, Bool, true, false, not, ◌&&◌, Option, none, some, List, [], ◌∷◌, map,
  if◌then◌else◌, ok, err, ◌==◌, nat_Eq, list_Eq, option_Eq, string_Eq, leb, take, select, is_some,
  ltb,
}
use codito_mcp.Common.Dict.{Dict, lookup}
use codito_mcp.Db.Json.{Fields, str, obj, field, end_fields, bool}
use codito_mcp.Relay.Types.{
  Status, dispatched, received, running, failed, outcome_unknown, expired, in_progress,
}
use codito_mcp.Relay.Tunnel.Types.{
  operation, operation_result, terminal_ack, Bindings, Envelope, Connection, Row, Tables, Checked,
  value_error,
}
use codito_mcp.Relay.Tunnel.Record.{failure_payload, uncertainty_message, is_unsafe, save_row}
use codito_mcp.Relay.Tunnel.Binding.{project_binding, has_epoch}

-- `PreparedDispatch`, or nothing to do
pub data Prepared : Type 0 where
  nothing : Prepared
  outbound terminal : String → Envelope → Prepared

abbrev pub row_bindings : Connection → Row → Bindings
row_bindings c row = record {
  account_id = c.account_wire_id;
  device_id = c.device_id;
  link_id = some row.link_id;
  grant_id = some row.operation.scope.oauth_grant_id;
  project_id = project_binding row.operation.scope.project;
}

-- `request_payload`, as JSON
abbrev pub request_fields : Row → Fields
request_fields row =
    field "tool_name" (str row.operation.request_payload.0)
      (field "input" (obj row.operation.request_payload.1) end_fields)

abbrev pub operation_envelope : Connection → Row → Envelope
operation_envelope c row = record {
  kind = operation;
  message_id = row.message_id;
  correlation_id = some row.correlation_id;
  sequence = 0;
  connection_epoch = c.epoch;
  deadline_at = some row.operation.deadline_at;
  bindings = row_bindings c row;
  action_digest = some row.operation.action_digest;
  payload = request_fields row;
}

abbrev pub terminal_result_envelope : String → Connection → Row → Fields → Envelope
terminal_result_envelope message c row payload = record {
  kind = operation_result;
  message_id = message;
  correlation_id = some row.correlation_id;
  sequence = 0;
  connection_epoch = c.epoch;
  deadline_at = none;
  bindings = row_bindings c row;
  action_digest = some row.operation.action_digest;
  payload = payload;
}

-- an end before delivery: its status, its error, the answer, and whether the answer is kept
pub record Ending : Type 0 where
  pub status : Status
  pub error_code : String
  pub payload : Fields
  pub keeps : Bool

unfoldable pub ending : ℕ → Row → Option Ending
ending now row =
    if leb row.operation.deadline_at now
    then some (record {
      status = expired;
      error_code = "operation_timeout";
      payload =
          failure_payload "deadline_exceeded"
            "The operation deadline elapsed before device delivery" row.correlation_id true;
      keeps = false;
    })
    else if is_some row.link_revoked_at
    then some (record {
      status = failed;
      error_code = "link_revoked";
      payload =
          failure_payload "link_revoked" "The OAuth device link was revoked before delivery"
            row.correlation_id false;
      keeps = true;
    })
    else if is_some row.delivery_attempted_at && is_unsafe row
    then some (record {
      status = outcome_unknown;
      error_code = "outcome_unknown";
      payload =
          failure_payload "outcome_unknown"
            (uncertainty_message row.operation.scope.kind row.operation.request_payload.1)
            row.correlation_id false;
      keeps = false;
    })
    else none

unfoldable pub ended_row : Connection → Ending → Row → Row
ended_row c end row = record row {
  operation = record row.operation {
    status = end.status;
    error_code = end.error_code;
    result = if end.keeps then some end.payload else none;
    connection_epoch = c.epoch;
  };
}

unfoldable pub attempted_row : ℕ → Connection → Row → Row
attempted_row now c row = record row {
  operation = record row.operation { connection_epoch = c.epoch };
  delivery_attempted_at = some now;
  sent_at = none;
  sent_epoch = none;
}

-- `fresh` is the new message's identifier.
unfoldable pub prepare_row : ℕ → String → Connection → String → Row → Tables → Prepared × Tables
prepare_row now fresh c id row s = elim (ending now row) [
  | some end ↦
      let new = ended_row c end row in
      (terminal id (terminal_result_envelope fresh c new end.payload), save_row id new s)
  | none ↦
      let new = attempted_row now c row in
      (outbound id (operation_envelope c new), save_row id new s)
]

unfoldable pub is_wanted : Connection → String → Row → Bool
is_wanted c correlation row =
    row.correlation_id == correlation
    && row.operation.scope.account_id == c.account
    && row.operation.scope.device == c.device_id

unfoldable pub prepare_found :
    ℕ → String → Connection → List (String × Row) → Tables → Checked Prepared × Tables
prepare_found now fresh c [] s = (ok nothing, s)
prepare_found now fresh c ((id, row) ∷ others) s =
    if not (has_epoch c.epoch (lookup row.operation.scope.device s.devices))
    then (err value_error, s)
    else if not (in_progress row.operation.status)
    then (ok nothing, s)
    else (let done = prepare_row now fresh c id row s in (ok done.0, done.1))

unfoldable pub prepare_operation_dispatch :
    ℕ → String → Connection → String → Tables → Checked Prepared × Tables
prepare_operation_dispatch now fresh c correlation s =
    prepare_found now fresh c (select (λ r. is_wanted c correlation r.1) s.rows) s

unfoldable pub was_sent : ℕ → Connection → Row → Row
was_sent now c row =
    if row.operation.scope.device == c.device_id
      && row.operation.connection_epoch == c.epoch
      && not (is_some row.sent_at)
    then record row { sent_at = some now; sent_epoch = some c.epoch }
    else row

unfoldable pub mark_sent : String → ℕ → Connection → Dict String Row → Dict String Row
mark_sent id now c [] = []
mark_sent id now c ((j, row) ∷ rows) =
    (j, if j == id then was_sent now c row else row) ∷ mark_sent id now c rows

unfoldable pub mark_operation_sent : String → ℕ → Connection → Tables → Tables
mark_operation_sent id now c s = record s { rows = mark_sent id now c s.rows }

unfoldable pub is_delivered : Status → Bool
is_delivered dispatched = true
is_delivered received = true
is_delivered running = true
is_delivered _ = false

unfoldable pub is_recoverable : Connection → Row → Bool
is_recoverable c row =
    row.operation.scope.account_id == c.account
    && row.operation.scope.device == c.device_id
    && is_delivered row.operation.status

-- `order_by("created_at")`: a row goes behind those that are no younger
unfoldable pub insert_by_age : Row → List Row → List Row
insert_by_age row [] = row ∷ []
insert_by_age row (first ∷ rows) =
    let rest = insert_by_age row rows in
    if ltb row.created_at first.created_at then row ∷ first ∷ rows else first ∷ rest

unfoldable pub by_age : List (String × Row) → List Row
by_age [] = []
by_age ((id, row) ∷ rows) = insert_by_age row (by_age rows)

abbrev pub recovery_limit : ℕ
recovery_limit = 100

unfoldable pub recoverable_correlations : Connection → Tables → List String
recoverable_correlations c s =
    map (λ row. row.correlation_id)
      (take recovery_limit (by_age (select (λ r. is_recoverable c r.1) s.rows)))

abbrev pub persisted : Fields
persisted = field "persisted" (bool true) end_fields

abbrev pub make_terminal_ack : String → Connection → Row → Envelope → Envelope
make_terminal_ack message c row e = record {
  kind = terminal_ack;
  message_id = message;
  correlation_id = e.correlation_id;
  sequence = e.sequence + 1;
  connection_epoch = c.epoch;
  deadline_at = none;
  bindings = e.bindings;
  action_digest = some row.operation.action_digest;
  payload = persisted;
}
