-- ===== src/Relay/Queue.antt =====
-- Admission: the bound on a device's queue, and what an idempotency key stands for.
use codito_mcp.Common.Dict.{Dict, insert}
use codito_mcp.Common.{ℕ, String, ◌+◌, ◌≤◌, [], ◌∷◌, arith, if◌then◌else◌, string_Eq}
use codito_mcp.Relay.Types.{Operation, Store, Principal}
use codito_mcp.Relay.Admission.{
  is_pending, pending_count, admission, create_operation, locked_admission,
}

pending_count-insert :
    (device id : String) (row : Operation) (ops : Dict String Operation)
    → pending_count device (insert id row ops)
      ≤ pending_count device ops + (if is_pending device row then 1 else 0)
unfolding pending_count insert
pending_count-insert device id row [] = ground arith
pending_count-insert device id row ((j, r) ∷ ops) =
    ground (arith, pending_count-insert device id row ops)

-- the row counts for a device only if the device had room
admission-room :
    (limit : ℕ) (id : String) (row : Operation) (s : Store) (device : String)
    → pending_count device s.operations ≤ limit
    → pending_count device (admission limit id row s).1.operations ≤ limit
unfolding admission is_pending
admission-room limit id row s device h = ground (
  arith,
  pending_count-insert device id row s.operations,
  string_Eq.beq_iff row.scope.device device,
)

-- No call takes a device's queue over its limit: a device that has at most `limit` operations in
-- progress has at most `limit` after any call of `_create_operation`, for this device or another,
-- whatever the first query saw.
pub create_operation-room :
    (limit : ℕ) (fresh : String) (p : Principal) (row : Operation) (seen s : Store)
    (device : String)
    → pending_count device s.operations ≤ limit
    → pending_count device (create_operation limit fresh p row seen s).1.operations ≤ limit
unfolding create_operation locked_admission
create_operation-room limit fresh p row seen s device h =
    ground (arith, admission-room limit fresh row s device h)
