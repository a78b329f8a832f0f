-- ===== src/Relay/Once.antt =====
-- Idempotency keys of the relay over the life of a row.
use codito_mcp.Common.{
  ℕ, String, ◌≡◌, refl, sym, ap, ◌∙◌, inl, inr, Bool, true, false, ◌&&◌, Option, none, some, [],
  ◌∷◌, arith, if◌then◌else◌, ok, err, ◌==◌, nat_Eq, list_Eq, option_Eq, string_Eq, Bool-cases, ◌⊎◌,
}
use codito_mcp.Common.Dict.{Dict, lookup, insert, contains}
use codito_mcp.Relay.Types.{
  fatal, Principal, Scope, scope_eq, scope_eq_iff, Operation, Store, Status, in_progress,
  dispatched,
}
use codito_mcp.Relay.Admission.{
  find_scope, same_action, existing, admission, locked_admission, create_operation,
}
use codito_mcp.Relay.Delivery.{
  update_where, mark_dispatched, finish, mark_delivery_failure, Event, dispatch, finished,
  undelivered, happen, is_accepted, terminal_status, failure_status,
}

find_scope-insert :
    (id : String) (row : Operation) (scope : Scope) (ops : Dict String Operation)
    → row.scope ≡ scope
    → contains id ops ≡ false
    → find_scope scope ops ≡ none
    → find_scope scope (insert id row ops) ≡ some (id, row)
unfolding find_scope insert lookup
find_scope-insert id row scope [] e new h = ground (arith, scope_eq_iff row.scope scope)
find_scope-insert id row scope ((j, r) ∷ ops) e new h =
    ground (arith, find_scope-insert id row scope ops e)

-- the row found, after a guarded update
abbrev updated : String → (Status → Bool) → (Operation → Operation) → String → Operation → Operation
updated id guard f j row = if j == id && guard row.status then f row else row

abbrev updated_found :
    String
    → (Status → Bool)
    → (Operation → Operation)
    → Option (String × Operation)
    → Option (String × Operation)
updated_found id guard f none = none
updated_found id guard f (some (j, row)) = some (j, updated id guard f j row)

updated-scope :
    (id : String) (guard : Status → Bool) (f : Operation → Operation) (j : String) (row : Operation)
    → (f row).scope ≡ row.scope
    → (updated id guard f j row).scope ≡ row.scope
updated-scope id guard f j row keeps = ground arith

find_scope-update :
    (id : String) (guard : Status → Bool) (f : Operation → Operation) (scope : Scope)
    (ops : Dict String Operation)
    → ((r : Operation) → (f r).scope ≡ r.scope)
    → find_scope scope (update_where id guard f ops)
      ≡ updated_found id guard f (find_scope scope ops)
unfolding find_scope update_where
find_scope-update id guard f scope [] keeps = refl
find_scope-update id guard f scope ((i, r) ∷ ops) keeps =
    ap
      (λ s.
        if scope_eq s scope
        then some (i, updated id guard f i r)
        else find_scope scope (update_where id guard f ops))
      (updated-scope id guard f i r (keeps r))
    ∙ elim (Bool-cases (scope_eq r.scope scope)) [
      | inl same ↦ rw same refl
      | inr other ↦ rw other (find_scope-update id guard f scope ops keeps)
    ]

-- The key is there, for the operation `id` and its action.
abbrev Holds : Scope → String → String → Store → Type 0
Holds scope id digest s =
    (row : Operation) × (find_scope scope s.operations ≡ some (id, row))
    × (row.action_digest ≡ digest)

update-Holds :
    (id : String) (guard : Status → Bool) (f : Operation → Operation) (scope : Scope)
    (j digest : String) (s : Store)
    → ((r : Operation) → (f r).scope ≡ r.scope)
    → ((r : Operation) → (f r).action_digest ≡ r.action_digest)
    → Holds scope j digest s
    → Holds scope j digest (record s { operations = update_where id guard f s.operations })
update-Holds id guard f scope j digest s keeps same (row, found, e) = (
  updated id guard f j row,
  find_scope-update id guard f scope s.operations keeps ∙ ap (updated_found id guard f) found,
  ground (arith, same row),
)

happen-Holds :
    (e : Event) (scope : Scope) (j digest : String) (s : Store)
    → Holds scope j digest s
    → Holds scope j digest (happen e s)
unfolding happen mark_dispatched finish mark_delivery_failure
happen-Holds (dispatch id) scope j digest s h =
    update-Holds id is_accepted (λ r. record r { status = dispatched }) scope j digest s (λ _. refl)
      (λ _. refl) h
happen-Holds (finished id result durable) scope j digest s h =
    update-Holds id in_progress
      (λ r. record r { status = terminal_status result; result = some durable }) scope j digest s
      (λ _. refl) (λ _. refl) h
happen-Holds (undelivered id e) scope j digest s h =
    update-Holds id in_progress (λ r. record r { status = failure_status e; error_code = e.code })
      scope j digest s (λ _. refl) (λ _. refl) h

-- What may come between two calls: a write of the dispatcher's, any other write of a row that leaves
-- the scope and the action of the row as they are, any other call that creates an operation, under a
-- name that no row has, and any change of the other tables.
pub data Later : Store → Store → Type 0 where
  at_once : {s : Store} → Later s s
  happened : {s t : Store} (e : Event) → Later (happen e s) t → Later s t
  written :
      {s t : Store} (id : String) (guard : Status → Bool) (f : Operation → Operation)
      → ((r : Operation) → (f r).scope ≡ r.scope)
      → ((r : Operation) → (f r).action_digest ≡ r.action_digest)
      → Later (record s { operations = update_where id guard f s.operations }) t
      → Later s t
  created :
      {s t : Store} (limit : ℕ) (fresh : String) (p : Principal) (row : Operation) (seen : Store)
      → contains fresh s.operations ≡ false
      → Later (create_operation limit fresh p row seen s).1 t
      → Later s t
  elsewhere :
      {s t : Store} (other : Store)
      → Later (record other { operations = s.operations }) t
      → Later s t

find_scope-insert_other :
    (id j : String) (row r : Operation) (scope : Scope) (ops : Dict String Operation)
    → contains id ops ≡ false
    → find_scope scope ops ≡ some (j, r)
    → find_scope scope (insert id row ops) ≡ some (j, r)
unfolding find_scope insert lookup
find_scope-insert_other id j row r scope [] new found = absurd (ground arith)
find_scope-insert_other id j row r scope ((i, x) ∷ ops) new found =
    ground (arith, find_scope-insert_other id j row r scope ops)

-- what a call that creates an operation does to the table
create_operation-table :
    (limit : ℕ) (fresh : String) (p : Principal) (row : Operation) (seen s : Store)
    → ((create_operation limit fresh p row seen s).1.operations ≡ s.operations)
      ⊎ ((create_operation limit fresh p row seen s).1.operations ≡ insert fresh row s.operations)
unfolding create_operation locked_admission admission
create_operation-table limit fresh p row seen s = ground arith

created-keeps :
    (limit : ℕ) (fresh : String) (p : Principal) (row : Operation) (seen s : Store) (scope : Scope)
    (j digest : String)
    → contains fresh s.operations ≡ false
    → Holds scope j digest s
    → Holds scope j digest (create_operation limit fresh p row seen s).1
created-keeps limit fresh p row seen s scope j digest new (r, found, same) =
    elim (create_operation-table limit fresh p row seen s) [
      | inl e ↦ (r, ap (find_scope scope) e ∙ found, same)
      | inr e ↦ (
        r,
        ap (find_scope scope) e
            ∙ find_scope-insert_other fresh j row r scope s.operations new found,
        same,
      )
    ]

Later-Holds :
    {s t : Store} (scope : Scope) (j digest : String)
    → Later s t
    → Holds scope j digest s
    → Holds scope j digest t
Later-Holds scope j digest at_once h = h
Later-Holds {s} scope j digest (happened e l) h =
    Later-Holds scope j digest l (happen-Holds e scope j digest s h)
Later-Holds {s} scope j digest (written id guard f keeps same l) h =
    Later-Holds scope j digest l (update-Holds id guard f scope j digest s keeps same h)
Later-Holds {s} scope j digest (created limit fresh p row seen new l) h =
    Later-Holds scope j digest l (created-keeps limit fresh p row seen s scope j digest new h)
Later-Holds scope j digest (elsewhere other l) h = Later-Holds scope j digest l h

-- A new row leaves its key held, where its name is new.
created-Holds :
    (limit : ℕ) (fresh : String) (p : Principal) (row : Operation) (seen s : Store)
    → (row.scope.idempotency_key == "") ≡ false
    → contains fresh s.operations ≡ false
    → (create_operation limit fresh p row seen s).0 ≡ ok ((fresh, row), true)
    → Holds row.scope fresh row.action_digest (create_operation limit fresh p row seen s).1
unfolding create_operation locked_admission admission existing same_action
created-Holds limit fresh p row seen s keyed new h =
    (row, ground (arith, find_scope-insert fresh row row.scope s.operations refl new), refl)

Holds-create :
    (limit : ℕ) (fresh id : String) (p : Principal) (row r : Operation) (seen s : Store)
    → (row.scope.idempotency_key == "") ≡ false
    → find_scope row.scope seen.operations ≡ some (id, r)
    → (create_operation limit fresh p row seen s).0 ≡ (
        if r.action_digest == row.action_digest
        then ok ((id, r), false)
        else err (fatal "idempotency_conflict"))
unfolding create_operation existing same_action
Holds-create limit fresh id p row r seen s keyed found =
    rw (keyed, found, create_operation, existing, same_action) (ground arith)

-- A key names one operation: once a call with a key has created one under a new name, every later
-- call of the same scope is given that operation if its action is the same and a conflict if not. It
-- is not created again, whatever comes between: the dispatcher's writes of any operation, other writes
-- of a row that leave its scope and action as they are, other calls that create operations under new
-- names, and changes of other tables; no row is deleted between.
pub create-once :
    (limit limit' : ℕ) (fresh fresh' : String) (p p' : Principal) (row row' : Operation)
    (seen s s' after : Store)
    → (row.scope.idempotency_key == "") ≡ false
    → contains fresh s.operations ≡ false
    → (create_operation limit fresh p row seen s).0 ≡ ok ((fresh, row), true)
    → row.scope ≡ row'.scope
    → Later (create_operation limit fresh p row seen s).1 after
    → (r : Operation) × (r.action_digest ≡ row.action_digest)
      × ((create_operation limit' fresh' p' row' after s').0 ≡ (
          if r.action_digest == row'.action_digest
          then ok ((fresh, r), false)
          else err (fatal "idempotency_conflict")))
create-once limit limit' fresh fresh' p p' row row' seen s s' after keyed new h same later =
    let (r, found, e) =
      Later-Holds row.scope fresh row.action_digest later
        (created-Holds limit fresh p row seen s keyed new h) in
    (
      r,
      e,
      Holds-create limit' fresh' fresh p' row' r after s'
          (ap (λ c. c.idempotency_key == "") (sym same) ∙ keyed)
          (ap (λ c. find_scope c after.operations) (sym same) ∙ found),
    )
