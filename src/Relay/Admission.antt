-- ===== src/Relay/Admission.antt =====
-- `_create_operation`: idempotency, the bound on the device's queue, the new row. The first query
-- and the transaction, which holds the device's row, see two states of the tables.
use codito_mcp.Common.Dict.{insert, Dict, lookup}
use codito_mcp.Common.{
  ℕ, String, Bool, true, false, ◌&&◌, Option, none, some, [], ◌∷◌, ◌++◌, if◌then◌else◌, ok, err,
  ◌==◌, nat_Eq, list_Eq, option_Eq, string_Eq, leb, length, select,
}
use codito_mcp.Db.Json.{Fields}
use codito_mcp.Relay.Types.{
  fatal, transient, Dispatched, Principal, Device, Scope, scope_eq, Operation, Store, accepted,
  in_progress, text_field, Dict, lookup,
}

-- `Operation.objects.filter(**idempotency_scope).first()`
unfoldable pub find_scope : Scope → Dict String Operation → Option (String × Operation)
find_scope scope [] = none
find_scope scope ((id, row) ∷ ops) =
    let rest = find_scope scope ops in if scope_eq row.scope scope then some (id, row) else rest

unfoldable pub is_pending : String → Operation → Bool
is_pending device row = row.scope.device == device && in_progress row.status

unfoldable pub pending_count : String → Dict String Operation → ℕ
pending_count device ops = length (select (λ r. is_pending device r.1) ops)

-- the operation that has the key already, if its action is the same one
unfoldable pub same_action : String → String × Operation → Dispatched ((String × Operation) × Bool)
same_action digest (id, row) =
    if row.action_digest == digest
    then ok ((id, row), false)
    else err (fatal "idempotency_conflict")

-- both queries by the key
unfoldable pub existing : Scope → Dict String Operation → Option (String × Operation)
existing scope ops = if scope.idempotency_key == "" then none else find_scope scope ops

abbrev pub admit : String → Operation → Store → Store
admit id row s = record s { operations = insert id row s.operations; audit = s.audit ++ (id ∷ []) }

-- The transaction. A new row's unique scope is free, as the query before it saw no row of it.
unfoldable pub admission :
    ℕ → String → Operation → Store → Dispatched ((String × Operation) × Bool) × Store
admission queue_limit fresh row s = elim (existing row.scope s.operations) [
  | some found ↦ (same_action row.action_digest found, s)
  | none ↦
      if leb queue_limit (pending_count row.scope.device s.operations)
      then (err (transient "device_queue_full"), s)
      else (ok ((fresh, row), true), admit fresh row s)
]

-- `Device.DoesNotExist` is written as a code of its own, which no `ToolDispatchError` has.
unfoldable pub locked_admission :
    ℕ → String → Principal → Operation → Store → Dispatched ((String × Operation) × Bool) × Store
locked_admission queue_limit fresh p row s = elim (lookup row.scope.device s.devices) [
  | none ↦ (err (fatal "device_does_not_exist"), s)
  | some d ↦
      if d.account_id == p.account_id
      then admission queue_limit fresh row s
      else (err (fatal "device_does_not_exist"), s)
]

unfoldable pub scope_of : Principal → Option String → String → Fields → Scope
scope_of p project tool args = record {
  account_id = p.account_id;
  oauth_grant_id = p.oauth_grant_id;
  device_link_id = p.device_link_id;
  device = p.device_id;
  project = project;
  kind = tool;
  idempotency_key = text_field "idempotency_key" args;
}

unfoldable pub new_operation :
    Principal → Device → Option String → String → Fields → String → String → ℕ → Operation
new_operation p device project tool args action_digest request_digest deadline = record {
  scope = scope_of p project tool args;
  status = accepted;
  connection_epoch = device.connection_epoch;
  action_digest = action_digest;
  request_digest = request_digest;
  request_payload = (tool, args);
  deadline_at = deadline;
  error_code = "";
  result = none;
}

-- `seen` is what the first query reads, `s` what the transaction does.
unfoldable pub create_operation :
    ℕ
    → String
    → Principal
    → Operation
    → Store
    → Store
    → Dispatched ((String × Operation) × Bool) × Store
create_operation queue_limit fresh p row seen s = elim (existing row.scope seen.operations) [
  | some found ↦ (same_action row.action_digest found, s)
  | none ↦ locked_admission queue_limit fresh p row s
]
