-- ===== src/Tests/TunnelData.antt =====
-- A device that connects twice, and an operation that it answers.
use codito_mcp.Common.{
  String, true, false, none, some, List, [], ◌∷◌, ◌==◌, nat_Eq, list_Eq, option_Eq, string_Eq,
}
use codito_mcp.Db.Json.{Fields, end_fields, field, str, bool, obj}
use codito_mcp.Relay.Types.{
  succeeded, Device, Operation, Scope, online, offline, running, in_progress, Dispatched,
  is_revoked,
}
use codito_mcp.Relay.Results.{
  Contracts, json_eq, validate_for_request, durable_tool_result, is_literal,
}
use codito_mcp.Relay.Dispatch.{dispatch_program}
use codito_mcp.Relay.Tunnel.Types.{
  Bindings, Connection, Envelope, Row, Tables, Ticket, World, operation_result, Refusal, Checked,
  hex_digits,
}
use codito_mcp.Relay.Tunnel.Tickets.{consume_ticket}
use codito_mcp.Relay.Tunnel.Record.{normalized, record_device_message, save_row}
use codito_mcp.Relay.Tunnel.Machine.{Step, message, prepare, run, dispatching, closed}
use codito_mcp.Relay.Tunnel.Loop.{receive_lifecycle, Effect, publishes, sends, text_or_none}
use codito_mcp.Relay.Tunnel.Prepare.{make_terminal_ack}
use codito_mcp.Relay.Tunnel.Projects.{
  ProjectRow, Projects, available, unavailable, synchronize_projects, count_items,
}

unfoldable pub tunnel_program : Unit {0}
unfolding dispatch_program codito_mcp.Relay.Tunnel.Types.nth_text
    codito_mcp.Relay.Tunnel.Types.hex_digits codito_mcp.Relay.Tunnel.Types.wire_id
    codito_mcp.Relay.Types.is_revoked codito_mcp.Relay.Results.number_of
    codito_mcp.Relay.Results.count_fields codito_mcp.Relay.Results.set_field
    codito_mcp.Relay.Results.is_literal codito_mcp.Relay.Results.dict_of
    codito_mcp.Relay.Results.validate_success codito_mcp.Relay.Results.validate_result
    codito_mcp.Relay.Results.differs codito_mcp.Relay.Results.check_echoes
    codito_mcp.Relay.Results.ends_with codito_mcp.Relay.Results.without_dot
    codito_mcp.Relay.Results.port_or codito_mcp.Relay.Results.origin_of
    codito_mcp.Relay.Results.url_origin codito_mcp.Relay.Results.normalized_http_origin
    codito_mcp.Relay.Results.same_origin codito_mcp.Relay.Results.check_session
    codito_mcp.Relay.Results.is_text codito_mcp.Relay.Results.names_element
    codito_mcp.Relay.Results.check_element codito_mcp.Relay.Results.check_frontend
    codito_mcp.Relay.Results.check_bound codito_mcp.Relay.Results.bind_result
    codito_mcp.Relay.Results.validate_for_request codito_mcp.Relay.Results.image_of
    codito_mcp.Relay.Results.without_image codito_mcp.Relay.Results.durable_tool_result
    codito_mcp.Relay.Results.json_eq codito_mcp.Relay.Tunnel.Types.is_active
    codito_mcp.Relay.Tunnel.Tickets.is_usable codito_mcp.Relay.Tunnel.Tickets.present_ticket
    codito_mcp.Relay.Tunnel.Tickets.consume_ticket codito_mcp.Relay.Tunnel.Tickets.update_device
    codito_mcp.Relay.Tunnel.Tickets.mark_online codito_mcp.Relay.Tunnel.Tickets.touch
    codito_mcp.Relay.Tunnel.Tickets.mark_offline codito_mcp.Relay.Tunnel.Binding.has_epoch
    codito_mcp.Relay.Tunnel.Binding.is_named codito_mcp.Relay.Tunnel.Binding.get_one
    codito_mcp.Relay.Tunnel.Binding.project_binding codito_mcp.Relay.Tunnel.Binding.correlation_of
    codito_mcp.Relay.Tunnel.Binding.binds_row codito_mcp.Relay.Tunnel.Binding.binds_connection
    codito_mcp.Relay.Tunnel.Binding.validate_operation_binding
    codito_mcp.Relay.Tunnel.Record.uncertainty_message
    codito_mcp.Relay.Tunnel.Record.failure_payload codito_mcp.Relay.Tunnel.Record.is_unsafe
    codito_mcp.Relay.Tunnel.Record.invalid_payload codito_mcp.Relay.Tunnel.Record.validate_payload
    codito_mcp.Relay.Tunnel.Record.normalized codito_mcp.Relay.Tunnel.Record.is_result
    codito_mcp.Relay.Tunnel.Record.normalize codito_mcp.Relay.Tunnel.Record.has_code
    codito_mcp.Relay.Tunnel.Record.is_uncertain codito_mcp.Relay.Tunnel.Record.ended_as
    codito_mcp.Relay.Tunnel.Record.code_text codito_mcp.Relay.Tunnel.Record.error_code_of
    codito_mcp.Relay.Tunnel.Record.reported codito_mcp.Relay.Tunnel.Record.rank
    codito_mcp.Relay.Tunnel.Record.advance codito_mcp.Relay.Tunnel.Record.is_stale
    codito_mcp.Relay.Tunnel.Record.has_result codito_mcp.Relay.Tunnel.Record.live_row
    codito_mcp.Relay.Tunnel.Record.is_reconcilable codito_mcp.Relay.Tunnel.Record.late_row
    codito_mcp.Relay.Tunnel.Record.reconcile codito_mcp.Relay.Tunnel.Record.record_ended
    codito_mcp.Relay.Tunnel.Record.record_fresh codito_mcp.Relay.Tunnel.Record.record_stale
    codito_mcp.Relay.Tunnel.Record.record_device_message codito_mcp.Relay.Tunnel.Prepare.ending
    codito_mcp.Relay.Tunnel.Prepare.ended_row codito_mcp.Relay.Tunnel.Prepare.attempted_row
    codito_mcp.Relay.Tunnel.Prepare.prepare_row codito_mcp.Relay.Tunnel.Prepare.is_wanted
    codito_mcp.Relay.Tunnel.Prepare.prepare_found
    codito_mcp.Relay.Tunnel.Prepare.prepare_operation_dispatch
    codito_mcp.Relay.Tunnel.Prepare.was_sent codito_mcp.Relay.Tunnel.Prepare.mark_sent
    codito_mcp.Relay.Tunnel.Prepare.mark_operation_sent codito_mcp.Relay.Tunnel.Prepare.is_delivered
    codito_mcp.Relay.Tunnel.Prepare.is_recoverable codito_mcp.Relay.Tunnel.Prepare.insert_by_age
    codito_mcp.Relay.Tunnel.Prepare.by_age codito_mcp.Relay.Tunnel.Prepare.recoverable_correlations
    codito_mcp.Relay.Tunnel.Machine.step codito_mcp.Relay.Tunnel.Machine.run
    codito_mcp.Relay.Tunnel.Projects.text_or codito_mcp.Relay.Tunnel.Projects.is_alphanumeric
    codito_mcp.Relay.Tunnel.Projects.is_opaque_char codito_mcp.Relay.Tunnel.Projects.is_opaque_id
    codito_mcp.Relay.Tunnel.Projects.entry_of codito_mcp.Relay.Tunnel.Projects.within
    codito_mcp.Relay.Tunnel.Projects.has_identifiers codito_mcp.Relay.Tunnel.Projects.check_entry
    codito_mcp.Relay.Tunnel.Projects.is_own codito_mcp.Relay.Tunnel.Projects.upsert_project
    codito_mcp.Relay.Tunnel.Projects.upsert_all codito_mcp.Relay.Tunnel.Projects.left_out
    codito_mcp.Relay.Tunnel.Projects.withdraw codito_mcp.Relay.Tunnel.Projects.count_items
    codito_mcp.Relay.Tunnel.Projects.synchronized codito_mcp.Relay.Tunnel.Projects.synchronize
    codito_mcp.Relay.Tunnel.Projects.synchronize_projects codito_mcp.Relay.Tunnel.Upserts.id_of
    codito_mcp.Relay.Tunnel.Upserts.lists codito_mcp.Relay.Tunnel.Loop.deliver_operation
    codito_mcp.Relay.Tunnel.Loop.deliver_all codito_mcp.Relay.Tunnel.Loop.recover_unsent
    codito_mcp.Relay.Tunnel.Loop.is_lifecycle codito_mcp.Relay.Tunnel.Loop.is_hello
    codito_mcp.Relay.Tunnel.Loop.is_heartbeat codito_mcp.Relay.Tunnel.Loop.is_progress
    codito_mcp.Relay.Tunnel.Loop.text_or_none codito_mcp.Relay.Tunnel.Loop.published_effects
    codito_mcp.Relay.Tunnel.Loop.acknowledged_effects codito_mcp.Relay.Tunnel.Loop.receive_lifecycle
    codito_mcp.Relay.Tunnel.Loop.receive_kind codito_mcp.Relay.Tunnel.Loop.end_turn
    codito_mcp.Relay.Tunnel.Loop.receive codito_mcp.Relay.Tunnel.Loop.offers
    codito_mcp.Relay.Tunnel.Loop.open_with codito_mcp.Relay.Tunnel.Loop.open_websocket
tunnel_program = tt

abbrev pub contracts : Contracts
contracts = record {
  tool_failure = λ payload. some payload;
  tool_result = λ tool result. some result;
  sha256 = λ text. text;
  urlsplit = λ url. none;
  casefold = λ text. text;
}

abbrev pub world : World
world = record {
  hash_secret = λ raw. raw;
  verify = λ device raw challenge signature. signature == challenge;
  show = λ value. "value";
  contracts = contracts;
}

abbrev arguments : Fields
arguments = field "operation" (str "read_file") (field "path" (str "a.txt") end_fields)

abbrev pub answer : Fields
answer =
    field "ok" (bool true) (field "result" (obj (field "path" (str "a.txt") end_fields)) end_fields)

abbrev pub device : Device
device = record {
  account_id = 7;
  status = online;
  connection_epoch = 4;
  last_seen_at = some 100;
  is_gone = false;
}

abbrev scope : Scope
scope = record {
  account_id = 7;
  oauth_grant_id = "grant";
  device_link_id = 3;
  device = "device";
  project = some "project";
  kind = "project_read";
  idempotency_key = "";
}

abbrev pub live_operation : Operation
live_operation = record {
  scope = scope;
  status = running;
  connection_epoch = 4;
  action_digest = "digest";
  request_digest = "request";
  request_payload = ("project_read", arguments);
  deadline_at = 160;
  error_code = "";
  result = none;
}

abbrev pub live : Row
live = record {
  operation = live_operation;
  correlation_id = "correlation";
  message_id = "message";
  link_id = "link";
  link_revoked_at = none;
  created_at = 90;
  delivery_attempted_at = some 95;
  sent_at = some 96;
  sent_epoch = some 4;
  last_device_sequence = 2;
  last_device_sequence_epoch = 4;
}

abbrev pub ticket : String → Ticket
ticket challenge = record {
  device_id = "device";
  challenge = challenge;
  expires_at = 200;
  used_at = none;
}

abbrev pub tables : Tables
tables = record {
  devices = ("device", device) ∷ [];
  tickets = ("first", ticket "one") ∷ ("second", ticket "two") ∷ [];
  rows = ("op", live) ∷ [];
  audit = [];
}

abbrev pub connection : Connection
connection = record {
  device_id = "device";
  account = 7;
  account_wire_id = "account_0000000000000007";
  epoch = 4;
}

abbrev pub result_envelope : Envelope
result_envelope = record {
  kind = operation_result;
  message_id = "answer";
  correlation_id = some "correlation";
  sequence = 3;
  connection_epoch = 4;
  deadline_at = none;
  bindings = record {
    account_id = "account_0000000000000007";
    device_id = "device";
    link_id = some "link";
    grant_id = some "grant";
    project_id = some "project";
  };
  action_digest = some "digest";
  payload = answer;
}

abbrev pub steps : List Step
steps = message connection result_envelope ∷ prepare 170 "m" connection "correlation" ∷ []
