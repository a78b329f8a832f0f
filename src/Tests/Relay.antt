-- ===== src/Tests/Relay.antt =====
-- The relay's theorems at a device with room, and at one key used twice.
use codito_mcp.Common.{
  ◌≤◌, ◌≡◌, refl, true, false, some, [], ◌∷◌, arith, if◌then◌else◌, ok, err, ◌==◌, nat_Eq, list_Eq,
  option_Eq, string_Eq, none,
}
use codito_mcp.Common.Dict.{lookup}
use codito_mcp.Db.Json.{Fields, end_fields, field, str, bool}
use codito_mcp.Relay.Types.{
  fatal, Principal, Device, online, Operation, Store, running, outcome_unknown,
}
use codito_mcp.Relay.Admission.{create_operation, new_operation, pending_count}
use codito_mcp.Relay.Delivery.{dispatch, undelivered, happen}
use codito_mcp.Relay.Dispatch.{Env, broken, settle, dispatch_program, answered}
use codito_mcp.Relay.Results.{Contracts, validate_for_request}
use codito_mcp.Relay.Queue.{create_operation-room}
use codito_mcp.Relay.Once.{create-once, happened, at_once}
use codito_mcp.Relay.Authorized.{Permitted, dispatch-Permitted, settle-outcome_unknown, is_lost}

abbrev owner : Principal
owner = record {
  account_id = 7;
  device_id = "device";
  link_id = "link";
  device_link_id = 3;
  oauth_grant_id = "grant";
  scopes = "projects:read" ∷ "shell:execute" ∷ [];
}

abbrev laptop : Device
laptop = record {
  account_id = 7;
  status = online;
  connection_epoch = 4;
  last_seen_at = some 100;
  is_gone = false;
}

abbrev arguments : Fields
arguments = field "action" (str "start") (field "idempotency_key" (str "k1") end_fields)

abbrev start_row : Operation
start_row =
    new_operation owner laptop (some "project") "project_shell" arguments "digest" "request" 160

abbrev tables : Store
tables = record {
  devices = ("device", laptop) ∷ [];
  projects = ("project", record { account_id = 7; device_id = "device"; available = true }) ∷ [];
  operations = [];
  audit = [];
}

create_operation-room_example :
    pending_count "device" (create_operation 1 "op" owner start_row tables tables).1.operations ≤ 1
unfolding dispatch_program
create_operation-room_example =
    create_operation-room 1 "op" owner start_row tables tables "device" (omega arith)

create-once_example :
    (r : Operation) × (r.action_digest ≡ start_row.action_digest)
    × ((create_operation 8 "other" owner start_row
          (happen
            (undelivered "op" (fatal "protocol_error"))
            (happen (dispatch "op") (create_operation 1 "op" owner start_row tables tables).1))
          tables).0
        ≡ (if r.action_digest == start_row.action_digest
            then ok (("op", r), false)
            else err (fatal "idempotency_conflict")))
unfolding dispatch_program
create-once_example =
    create-once 1 8 "op" "other" owner owner start_row start_row tables tables tables
      (happen (undelivered "op" (fatal "protocol_error"))
        (happen (dispatch "op") (create_operation 1 "op" owner start_row tables tables).1))
      refl refl refl refl
      (happened (dispatch "op") (happened (undelivered "op" (fatal "protocol_error")) at_once))

abbrev with_row : Operation → Store
with_row row = record tables { operations = ("op", row) ∷ [] }

abbrev any_contracts : Contracts
any_contracts = record {
  tool_failure = λ payload. some payload;
  tool_result = λ tool result. some result;
  sha256 = λ text. text;
  urlsplit = λ url. none;
  casefold = λ text. text;
}

abbrev env : Env
env = record {
  schema = λ tool args. ok args;
  action_digest = λ tool args. "digest";
  request_digest = λ args. "request";
  list_projects = λ tool args. ok end_fields;
  envelope_is_valid = λ row. true;
  contracts = any_contracts;
  meanwhile = λ s. s;
  transport = λ device row s. (broken, s);
  now = 110;
  created_at = 111;
  fresh = "op";
  offline_after = 60;
  queue_limit = 4;
  operation_timeout = 50;
  frontend_start_timeout = 120;
}

abbrev running_row : Operation
running_row = record start_row { status = running }

settle-outcome_unknown_example :
    ((settle env "project_shell" arguments "op" broken (with_row running_row)).0
      ≡ err (fatal "outcome_unknown"))
    × (lookup "op"
          (settle env "project_shell" arguments "op" broken (with_row running_row)).1.operations
        ≡ some (record running_row { status = outcome_unknown; error_code = "outcome_unknown" }))
unfolding dispatch_program is_lost
settle-outcome_unknown_example =
    settle-outcome_unknown env "project_shell" arguments "op" broken (with_row running_row)
      running_row refl refl refl refl

abbrev refusal : Fields
refusal = field "ok" (bool false) end_fields

abbrev start_call : Fields
start_call = field "project_id" (str "project") arguments

abbrev answering : Env
answering = record env { transport = λ device row s. (answered refusal, s) }

dispatch-Permitted_example : Permitted answering owner "project_shell" start_call tables
unfolding dispatch_program codito_mcp.Relay.Results.is_literal
    codito_mcp.Relay.Results.validate_for_request codito_mcp.Relay.Results.validate_result
    codito_mcp.Relay.Results.bind_result
dispatch-Permitted_example =
    dispatch-Permitted answering owner "project_shell" start_call tables
      (record { operation_id = "op"; result = refusal }) refl
