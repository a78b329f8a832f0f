-- ===== src/Db/Operations.antt =====
-- The table `operations`: receipts, their states, and the acknowledgement of terminal results. The
-- request of a receipt is what `_activity_safe_value` made of it; the query and the update behind
-- an `IntegrityError`, two transactions in the code, are one step.
use codito_mcp.Common.Dict.{Dict, contains, lookup, insert}
use codito_mcp.Common.{
  ℕ, zero, suc, String, ◌+◌, ◌-◌, ◌≤◌, ◌<◌, ◌≡◌, refl, sym, ap, ◌∙◌, ◌≢◌, ◌↔◌, ◌⊎◌, inl, inr, Bool,
  true, false, not, ◌&&◌, ◌||◌, Option, none, some, List, [], ◌∷◌, ◌++◌, map, arith, if◌then◌else◌,
  Result, ok, err, ◌>>=◌, ◌>>◌, raise_if, ◌==◌, nat_Eq, list_Eq, option_Eq, string_Eq, is_some, any,
  ltb, select,
}
pub mod Evolving
pub mod Receipts
pub mod Delivery
pub mod Unacknowledged
use codito_mcp.Errors.{
  AgentError, Raises, plain, operation_conflict, operation_not_found, invalid_state,
}
use codito_mcp.Models.{OperationState, received, is_terminal, state_Eq}
use codito_mcp.Db.Json.{Json}

-- what a receipt binds an operation to: the columns that a redelivery must repeat
pub record Binding : Type 0 where
  pub correlation_id : String
  pub account_id : String
  pub grant_id : String
  pub link_id : String
  pub device_id : String
  pub project_id : Option String
  pub capability : String
  pub action_digest : String
  pub idempotency_key : Option String
  pub request_digest : String
  pub deadline_at : String

unfoldable pub binding_eq : Binding → Binding → Bool
binding_eq a b =
    a.correlation_id == b.correlation_id
    && a.account_id == b.account_id
    && a.grant_id == b.grant_id
    && a.link_id == b.link_id
    && a.device_id == b.device_id
    && a.project_id == b.project_id
    && a.capability == b.capability
    && a.action_digest == b.action_digest
    && a.idempotency_key == b.idempotency_key
    && a.request_digest == b.request_digest
    && a.deadline_at == b.deadline_at

pub record Operation : Type 0 where
  pub binding : Binding
  pub request : Option Json
  pub state : OperationState
  pub result : Option Json
  pub terminal_acked : Bool
  pub connection_epoch : ℕ
  pub received_at : ℕ
  pub updated_at : ℕ

abbrev pub Operations : Type 0
Operations = Dict String Operation

-- the foreign key on `projects`
unfoldable pub references : List String → Option String → Bool
references projects none = true
references projects (some p) = any (λ q. q == p) projects

abbrev pub new_operation : Binding → Option Json → ℕ → ℕ → Operation
new_operation b request epoch now = record {
  binding = b;
  request = request;
  state = received;
  result = none;
  terminal_acked = false;
  connection_epoch = epoch;
  received_at = now;
  updated_at = now;
}

-- the branch behind `sqlite3.IntegrityError`
unfoldable pub redelivered :
    String → Binding → ℕ → ℕ → Operations → Option Operation → Raises Bool × Operations
redelivered id b epoch now ops none = (err (plain operation_conflict), ops)
redelivered id b epoch now ops (some row) =
    if not (binding_eq row.binding b) || ltb epoch row.connection_epoch
    then (err (plain operation_conflict), ops)
    else if ltb row.connection_epoch epoch
    then (ok false, insert id (record row { connection_epoch = epoch; updated_at = now }) ops)
    else (ok false, ops)

-- `true`: a new receipt. `false`: one that is there already.
unfoldable pub record_received :
    List String → String → Binding → Option Json → ℕ → ℕ → Operations → Raises Bool × Operations
record_received projects id b request epoch now ops =
    if contains id ops || not (references projects b.project_id)
    then redelivered id b epoch now ops (lookup id ops)
    else (ok true, insert id (new_operation b request epoch now) ops)

abbrev pub move_to : OperationState → Option Json → ℕ → Operation → Operation
move_to state result now row = record row {
  state = state;
  result = result;
  terminal_acked = if is_terminal state then false else row.terminal_acked;
  updated_at = now;
}

unfoldable pub transition_operation :
    String → OperationState → Option Json → ℕ → Operations → Raises (Unit {0}) × Operations
transition_operation id state result now ops = elim (lookup id ops) [
  | none ↦ (err (plain operation_not_found), ops)
  | some row ↦
      if is_terminal row.state && not (row.state == state)
      then (err (plain invalid_state), ops)
      else (ok tt, insert id (move_to state result now row) ops)
]

-- the columns that an acknowledgement names
unfoldable pub acknowledges : Binding → Operation → Bool
acknowledges b row =
    row.binding.correlation_id == b.correlation_id
    && row.binding.action_digest == b.action_digest
    && row.binding.account_id == b.account_id
    && row.binding.grant_id == b.grant_id
    && row.binding.link_id == b.link_id
    && row.binding.device_id == b.device_id
    && row.binding.project_id == b.project_id
    && is_terminal row.state

abbrev pub acknowledged : Binding → ℕ → Operation → Operation
acknowledged b now row =
    if acknowledges b row then record row { terminal_acked = true; updated_at = now } else row

unfoldable pub acknowledge_rows : Binding → ℕ → Operations → Operations
acknowledge_rows b now [] = []
acknowledge_rows b now ((id, row) ∷ ops) = (id, acknowledged b now row) ∷ acknowledge_rows b now ops

-- whether some row was marked, and the table
unfoldable pub acknowledge_terminal : Binding → ℕ → Operations → Bool × Operations
acknowledge_terminal b now ops = (any (λ r. acknowledges b r.1) ops, acknowledge_rows b now ops)

-- the rows that `list_unacknowledged_terminals` selects
unfoldable pub unacknowledged : Operation → Bool
unacknowledged row = not row.terminal_acked && is_some row.result && is_terminal row.state
