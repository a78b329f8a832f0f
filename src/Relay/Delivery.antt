-- ===== src/Relay/Delivery.antt =====
-- `_mark_dispatched`, `_finish` and `_mark_delivery_failure`: guarded updates of one row.
use codito_mcp.Common.Dict.{Dict, lookup}
use codito_mcp.Common.{
  String, Bool, true, false, not, ◌&&◌, Option, none, some, [], ◌∷◌, if◌then◌else◌, ◌==◌, nat_Eq,
  list_Eq, option_Eq, string_Eq, ◌≡◌, arith, List,
}
use codito_mcp.Db.Json.{
  Json, Fields, get_field, null, bool, str, num, arr, obj, end_items, item, end_fields, field,
}
use codito_mcp.Relay.Types.{
  ToolError, Operation, Store, Status, accepted, dispatched, succeeded, failed, outcome_unknown,
  in_progress, Dict,
}

-- `Operation.objects.filter(pk=id, status__in=...).update(...)`
unfoldable pub update_where :
    String
    → (Status → Bool)
    → (Operation → Operation)
    → Dict String Operation
    → Dict String Operation
update_where id guard f [] = []
update_where id guard f ((j, row) ∷ ops) =
    (j, if j == id && guard row.status then f row else row) ∷ update_where id guard f ops

abbrev pub on_operations : (Dict String Operation → Dict String Operation) → Store → Store
on_operations f s = record s { operations = f s.operations }

unfoldable pub is_accepted : Status → Bool
is_accepted accepted = true
is_accepted _ = false

unfoldable pub mark_dispatched : String → Store → Store
mark_dispatched id s =
    on_operations (update_where id is_accepted (λ row. record row { status = dispatched })) s

-- the truth of a JSON value
unfoldable pub is_true : Option Json → Bool
is_true none = false
is_true (some null) = false
is_true (some (bool b)) = b
is_true (some (num n)) = not (n == 0)
is_true (some (str s)) = not (s == "")
is_true (some (arr end_items)) = false
is_true (some (arr (item v vs))) = true
is_true (some (obj end_fields)) = false
is_true (some (obj (field k v fs))) = true

unfoldable pub terminal_status : Fields → Status
terminal_status result = if is_true (get_field "error" result) then failed else succeeded

-- `durable_tool_result` is given its result.
unfoldable pub finish : String → Fields → Fields → Store → Store
finish id result durable s =
    on_operations
      (update_where id in_progress
        (λ row. record row { status = terminal_status result; result = some durable }))
      s

unfoldable pub failure_status : ToolError → Status
failure_status e = if e.code == "outcome_unknown" then outcome_unknown else failed

unfoldable pub mark_delivery_failure : String → ToolError → Store → Store
mark_delivery_failure id e s =
    on_operations
      (update_where id in_progress
        (λ row. record row { status = failure_status e; error_code = e.code }))
      s

-- a row after a guarded update
pub lookup-update_where :
    (id j : String) (guard : Status → Bool) (f : Operation → Operation)
    (ops : Dict String Operation) (row : Operation)
    → lookup j ops ≡ some row
    → lookup j (update_where id guard f ops)
      ≡ some (if j == id && guard row.status then f row else row)
unfolding update_where lookup
lookup-update_where id j guard f [] row h = absurd (ground arith)
lookup-update_where id j guard f ((i, r) ∷ ops) row h =
    ground (arith, lookup-update_where id j guard f ops row, string_Eq.beq_iff i j)

-- what happens to a row once it is created
pub data Event : Type 0 where
  dispatch : String → Event
  finished : String → Fields → Fields → Event
  undelivered : String → ToolError → Event

unfoldable pub happen : Event → Store → Store
happen (dispatch id) s = mark_dispatched id s
happen (finished id result durable) s = finish id result durable s
happen (undelivered id e) s = mark_delivery_failure id e s

unfoldable pub happen_all : List Event → Store → Store
happen_all [] s = s
happen_all (e ∷ es) s = happen_all es (happen e s)

happen-terminal :
    (e : Event) (id : String) (s : Store) (row : Operation)
    → lookup id s.operations ≡ some row
    → in_progress row.status ≡ false
    → lookup id (happen e s).operations ≡ some row
unfolding happen mark_dispatched finish mark_delivery_failure in_progress is_accepted
happen-terminal (dispatch j) id s row h t = ground (
  arith,
  lookup-update_where j id is_accepted (λ r. record r { status = dispatched }) s.operations row,
)
happen-terminal (finished j result durable) id s row h t = ground (
  arith,
  lookup-update_where j id in_progress
      (λ r. record r { status = terminal_status result; result = some durable }) s.operations row,
)
happen-terminal (undelivered j e) id s row h t = ground (
  arith,
  lookup-update_where j id in_progress
      (λ r. record r { status = failure_status e; error_code = e.code }) s.operations row,
)

-- Nothing that is delivered later changes an operation that has ended.
happen_all-terminal :
    (es : List Event) (id : String) (s : Store) (row : Operation)
    → lookup id s.operations ≡ some row
    → in_progress row.status ≡ false
    → lookup id (happen_all es s).operations ≡ some row
unfolding happen_all
happen_all-terminal [] id s row h t = h
happen_all-terminal (e ∷ es) id s row h t =
    happen_all-terminal es id (happen e s) row (happen-terminal e id s row h t) t
