-- ===== src/Client/Request.antt =====
-- The checks of `_receive` on an operation, and the receipt that it writes.
use codito_mcp.Common.{
  ℕ, String, Bool, true, false, not, ◌&&◌, ◌||◌, Option, none, some, List, [], ◌∷◌, if◌then◌else◌,
  Result, ok, err, ◌>>=◌, ◌>>◌, raise_if, ◌==◌, nat_Eq, list_Eq, option_Eq, string_Eq, ltb, leb,
  any, length,
}
use codito_mcp.Common.Dict.{Dict, contains}
use codito_mcp.Db.Json.{Json, Fields, get_field, str, end_fields}
use codito_mcp.Db.Operations.{Binding}
use codito_mcp.Relay.Results.{dict_of}
use codito_mcp.Relay.Tunnel.Types.{Envelope}
use codito_mcp.Client.WireErrors.{LocalError}
use codito_mcp.Client.Types.{Moment, Budget, Client, Setting}

-- the budgets that are kept: not elapsed, or of a task that runs
unfoldable pub prune_budgets : Moment → List String → Dict String Budget → Dict String Budget
prune_budgets now tasks [] = []
prune_budgets now tasks ((id, b) ∷ budgets) =
    let rest = prune_budgets now tasks budgets in
    if ltb now.monotonic b.monotonic_deadline || any (λ t. t == id) tasks
    then (id, b) ∷ rest
    else rest

unfoldable pub is_full : Setting → String → Client → Bool
is_full set id c =
    leb set.max_pending (length c.running)
    || leb set.max_pending (length c.budgets) && not (contains id c.budgets)

-- what an operation's envelope must have
pub record Request : Type 0 where
  pub correlation_id : String
  pub deadline_at : ℕ
  pub tool : String
  pub input : Fields
  pub grant_id : String
  pub link_id : String

abbrev pub local_error : String → String → Bool → LocalError
local_error code message retryable = record {
  code = code;
  message = message;
  retryable = retryable;
  details = end_fields;
}

abbrev pub Answered {ℓ} : Type ℓ → Type ℓ
Answered A = Result LocalError A

unfoldable pub required : {A : Type 0} → LocalError → Option A → Answered A
required error none = err error
required error (some a) = ok a

unfoldable pub text_value : Option Json → Option String
text_value (some (str s)) = some s
text_value _ = none

-- `input_project_id is not None and input_project_id != bindings.project_id`
unfoldable pub other_project : Option Json → Option String → Bool
other_project none bound = false
other_project (some (str id)) bound = not (bound == some id)
other_project (some Json.null) bound = false
other_project (some _) bound = true

unfoldable pub future_deadline : Moment → Option ℕ → Option ℕ
future_deadline now none = none
future_deadline now (some deadline) = if leb deadline now.wall then none else some deadline

unfoldable pub check_request : Setting → Moment → Envelope → Client → Answered Request
check_request set now e c =
    raise_if (is_full set e.message_id c) (local_error "queue_full" "Device queue is full" true)
    >> required (local_error "invalid_request" "Operation correlation_id is required" false)
        e.correlation_id
    >>= λ correlation.
        required (local_error "deadline_exceeded" "Operation deadline has elapsed" false)
          (future_deadline now e.deadline_at)
        >>= λ deadline.
            required (local_error "invalid_request" "Tool payload is malformed" false)
              (text_value (get_field "tool_name" e.payload))
            >>= λ tool.
                required (local_error "invalid_request" "Tool payload is malformed" false)
                  (dict_of (get_field "input" e.payload))
                >>= λ input.
                    raise_if (other_project (get_field "project_id" input) e.bindings.project_id) (
                      local_error "binding_mismatch"
                        "Project input does not match the routed binding" false)
                    >> raise_if (not (e.action_digest == some (set.action_digest tool input))) (
                        local_error "action_digest_mismatch" "Action digest does not match input"
                          false)
                    >> required
                        (local_error "unauthorized" "OAuth grant or link binding is missing" false)
                        e.bindings.grant_id
                    >>= λ grant.
                        required
                          (local_error "unauthorized" "OAuth grant or link binding is missing"
                            false)
                          e.bindings.link_id
                        >>= λ link. ok (record {
                          correlation_id = correlation;
                          deadline_at = deadline;
                          tool = tool;
                          input = input;
                          grant_id = grant;
                          link_id = link;
                        })

-- the receipt
abbrev pub receipt_of : Setting → Envelope → Request → Binding
receipt_of set e r = record {
  correlation_id = if r.correlation_id == "" then e.message_id else r.correlation_id;
  account_id = e.bindings.account_id;
  grant_id = r.grant_id;
  link_id = r.link_id;
  device_id = e.bindings.device_id;
  project_id = e.bindings.project_id;
  capability = r.tool;
  action_digest = set.action_digest r.tool r.input;
  idempotency_key = text_value (get_field "idempotency_key" r.input);
  request_digest = set.action_digest r.tool r.input;
  deadline_at = set.show_time r.deadline_at;
}
