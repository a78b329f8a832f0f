-- ===== src/Tests/Client.antt =====
-- The agent's client at a native action that the relay delivers twice around a crash, and at a result
-- that waits for its acknowledgement.
use codito_mcp.Common.{◌≤◌, ◌≡◌, refl, true, false, none, some, List, [], ◌∷◌, Any}
use codito_mcp.Models.{succeeded, is_terminal}
use codito_mcp.Client.WireErrors.{safe_details}
use codito_mcp.Client.Redacted.{IsRedacted, safe_details-IsRedacted}
use codito_mcp.Db.Json.{Json, arr, item, end_items, Fields, end_fields, field, str, bool, obj}
use codito_mcp.Db.Operations.{Binding, Operation, unacknowledged}
use codito_mcp.Relay.Dispatch.{dispatch_program}
use codito_mcp.Relay.Results.{Contracts}
use codito_mcp.Relay.Tunnel.Types.{Bindings, operation}
use codito_mcp.Client.Types.{AgentTicket, Received, Moment, Budget, Client, Agent, Setting}
use codito_mcp.Client.Machine.{Step, received, crashed, connected, begun, done, connect, run}
use codito_mcp.Client.Kept.{count_starts}
use codito_mcp.Client.Once.{run-once}
use codito_mcp.Client.Replayed.{SendsReplay, stored, connect-replays}

unfoldable client_program : Unit {0}
unfolding dispatch_program codito_mcp.Models.is_terminal codito_mcp.Relay.Results.dict_of
    codito_mcp.Relay.Results.set_field codito_mcp.Client.WireErrors.wire_code
    codito_mcp.Client.WireErrors.take_text codito_mcp.Client.WireErrors.is_letter
    codito_mcp.Client.WireErrors.drive_at codito_mcp.Client.WireErrors.has_drive
    codito_mcp.Client.WireErrors.is_local_path codito_mcp.Client.WireErrors.safe_text
    codito_mcp.Client.WireErrors.wire_message codito_mcp.Client.WireErrors.with_correlation
    codito_mcp.Client.WireErrors.to_tool_failure codito_mcp.Client.Types.earlier
    codito_mcp.Client.Types.local_deadline_of codito_mcp.Client.Types.budget_from
    codito_mcp.Client.Types.both_budgets codito_mcp.Client.Send.bindings_or
    codito_mcp.Client.Send.keep_terminal codito_mcp.Client.Send.send_new
    codito_mcp.Client.Send.send_failure codito_mcp.Client.Send.project_or_none
    codito_mcp.Client.Send.replays codito_mcp.Client.Send.send_stored codito_mcp.Text.text_before
    codito_mcp.Db.Operations.Unacknowledged.comes_before
    codito_mcp.Db.Operations.Unacknowledged.insert_row
    codito_mcp.Db.Operations.Unacknowledged.list_unacknowledged codito_mcp.Client.Send.send_kept
    codito_mcp.Client.Send.replay_pending_terminals codito_mcp.Client.Receive.is_ack
    codito_mcp.Client.Receive.other_link codito_mcp.Client.Receive.validate_bindings
    codito_mcp.Client.Receive.bindings_eq codito_mcp.Client.Receive.acknowledge_stored
    codito_mcp.Client.Receive.receive_ack codito_mcp.Client.Request.prune_budgets
    codito_mcp.Client.Request.is_full codito_mcp.Client.Request.required
    codito_mcp.Client.Request.text_value codito_mcp.Client.Request.other_project
    codito_mcp.Client.Request.future_deadline codito_mcp.Client.Request.check_request
    codito_mcp.Client.Accept.start_dispatch codito_mcp.Client.Accept.emit
    codito_mcp.Client.Accept.terminalize codito_mcp.Client.Accept.retried_budget
    codito_mcp.Client.Accept.stored_payload codito_mcp.Client.Accept.is_uncertain_native_action
    codito_mcp.Client.Accept.reconcile codito_mcp.Client.Accept.after_receipt
    codito_mcp.Client.Accept.accept_request codito_mcp.Client.Accept.receive_operation
    codito_mcp.Client.Accept.receive_kind codito_mcp.Client.Accept.ack_of
    codito_mcp.Client.Accept.receive codito_mcp.Client.Work.is_elapsed
    codito_mcp.Client.Work.deadline_error codito_mcp.Client.Work.failed_state
    codito_mcp.Client.Work.of_deadline codito_mcp.Client.Work.outcome
    codito_mcp.Client.Work.complete codito_mcp.Client.Work.begin_task
    codito_mcp.Client.Work.drop_task codito_mcp.Client.Work.task_done
    codito_mcp.Client.Machine.connect codito_mcp.Client.Machine.step codito_mcp.Client.Machine.run
    codito_mcp.Client.Once.native_action codito_mcp.Client.Once.is_safe
    codito_mcp.Client.WireErrors.safe_details codito_mcp.Db.Operations.binding_eq
    codito_mcp.Db.Operations.references codito_mcp.Db.Operations.redelivered
    codito_mcp.Db.Operations.record_received codito_mcp.Db.Operations.transition_operation
    codito_mcp.Db.Operations.acknowledges codito_mcp.Db.Operations.acknowledge_rows
    codito_mcp.Db.Operations.acknowledge_terminal codito_mcp.Db.Operations.unacknowledged
client_program = tt

abbrev contracts : Contracts
contracts = record {
  tool_failure = λ payload. some payload;
  tool_result = λ tool result. some result;
  sha256 = λ text. text;
  urlsplit = λ url. none;
  casefold = λ text. text;
}

abbrev setting : Setting
setting = record {
  action_digest = λ tool input. "digest";
  message_id = λ epoch n. "fresh";
  projects = "project" ∷ [];
  max_pending = 4;
  written_at = 100;
  show_time = λ time. "time";
  contracts = contracts;
}

abbrev ticket : AgentTicket
ticket = record { account_id = "account"; device_id = "device"; link_id = "link" }

abbrev client : Client
client = record {
  ticket = ticket;
  epoch = 4;
  out_sequence = 0;
  running = [];
  budgets = [];
  terminal_pending = [];
}

abbrev bindings : Bindings
bindings = record {
  account_id = "account";
  device_id = "device";
  link_id = some "link";
  grant_id = some "grant";
  project_id = some "project";
}

abbrev native_payload : Fields
native_payload =
    field "tool_name" (str "project_shell")
      (field "input" (obj (field "action" (str "start") end_fields)) end_fields)

abbrev delivery : Received
delivery = record {
  envelope = record {
    kind = operation;
    message_id = "op";
    correlation_id = some "correlation";
    sequence = 1;
    connection_epoch = 4;
    deadline_at = some 500;
    bindings = bindings;
    action_digest = some "digest";
    payload = native_payload;
  };
  sent_at = 200;
}

abbrev moment : Moment
moment = record { wall = 210; monotonic = 10 }

abbrev fresh_agent : Agent
fresh_agent = record { client = client; operations = [] }

abbrev redeliveries : List Step
redeliveries =
    received moment delivery
    ∷ crashed
    ∷ connected ticket 4 end_fields
    ∷ received moment delivery
    ∷ received moment delivery
    ∷ []

run-once_example : count_starts "op" (run setting redeliveries fresh_agent).0 ≤ 1
unfolding client_program
run-once_example = run-once setting redeliveries "op" fresh_agent refl

-- it does start
started_test : count_starts "op" (run setting redeliveries fresh_agent).0 ≡ 1
unfolding client_program
started_test = refl

abbrev waiting_binding : Binding
waiting_binding = record {
  correlation_id = "correlation";
  account_id = "account";
  grant_id = "grant";
  link_id = "link";
  device_id = "device";
  project_id = some "project";
  capability = "project_read";
  action_digest = "digest";
  idempotency_key = none;
  request_digest = "digest";
  deadline_at = "time";
}

abbrev answer : Fields
answer = field "ok" (bool true) end_fields

abbrev waiting : Operation
waiting = record {
  binding = waiting_binding;
  request = none;
  state = succeeded;
  result = some (obj answer);
  terminal_acked = false;
  connection_epoch = 3;
  received_at = 80;
  updated_at = 90;
}

abbrev waiting_agent : Agent
waiting_agent = record { client = client; operations = ("op", waiting) ∷ [] }

connect-replays_example :
    Any
      (SendsReplay
        (some waiting.binding.correlation_id)
        (some waiting.binding.action_digest)
        answer
        5)
      (connect setting ticket 5 end_fields waiting_agent).0
unfolding client_program
connect-replays_example =
    connect-replays setting ticket 5 end_fields waiting_agent (some waiting.binding.correlation_id)
      (some waiting.binding.action_digest) answer (stored "op" waiting refl refl refl)

abbrev path_details : Json
path_details = obj (
    field "path" (str "C:\\code\\a.py")
      (field "conflicts" (arr (item (str "at D:/x") (item (str "a.py") end_items))) end_fields))

redacted_test :
    safe_details path_details
    ≡ obj (
        field "path" (str "[local path redacted]") (
          field "conflicts"
            (arr (item (str "[local path redacted]") (item (str "a.py") end_items)))
            end_fields))
unfolding client_program codito_mcp.Db.Projects.is_space codito_mcp.Text.starts_with
redacted_test = refl

safe_details-IsRedacted_example : IsRedacted (safe_details path_details)
safe_details-IsRedacted_example = safe_details-IsRedacted path_details
