-- ===== src/Tests/Transport.antt =====
-- A result that comes in the second round, behind a message that is no result.
use codito_mcp.Common.{
  String, refl, true, false, Option, none, some, List, [], ◌∷◌, Any, ◌==◌, string_Eq, if◌then◌else◌,
}
use codito_mcp.Db.Json.{Fields, end_fields, field, bool}
use codito_mcp.Relay.Tunnel.Types.{
  Bindings, Envelope, MessageKind, operation_result, operation_started,
}
use codito_mcp.Relay.Transport.{
  Sent, Round, answers, take_envelope, parsed, take_message, take_messages, wait_result,
}
use codito_mcp.Relay.Transport.Answered.{IsAnswer, wait_result-IsAnswer}

abbrev bindings : Bindings
bindings = record {
  account_id = "account";
  device_id = "device";
  link_id = some "link";
  grant_id = some "grant";
  project_id = none;
}

abbrev sent : Sent
sent = record {
  correlation_id = "correlation";
  action_digest = "digest";
  device_id = "device";
  bindings = bindings;
}

abbrev answer : Fields
answer = field "ok" (bool true) end_fields

abbrev envelope : MessageKind → Envelope
envelope kind = record {
  kind = kind;
  message_id = "message";
  correlation_id = some "correlation";
  sequence = 1;
  connection_epoch = 4;
  deadline_at = none;
  bindings = bindings;
  action_digest = some "digest";
  payload = answer;
}

abbrev parse_envelope : String → Option Envelope
parse_envelope text =
    if text == "started"
    then some (envelope operation_started)
    else some (envelope operation_result)

abbrev rounds : List Round
rounds =
    record {
      is_late = false;
      messages = record { envelope = some "started"; current_epoch = 4 } ∷ [];
    }
    ∷ record {
      is_late = false;
      messages = record { envelope = some "result"; current_epoch = 4 } ∷ [];
    }
    ∷ []

wait_result-IsAnswer_example :
    Any (λ round. Any (IsAnswer parse_envelope sent answer) round.messages) rounds
unfolding answers take_envelope parsed take_message take_messages wait_result
    codito_mcp.Relay.Tunnel.Record.is_result
wait_result-IsAnswer_example = wait_result-IsAnswer parse_envelope sent answer rounds refl
