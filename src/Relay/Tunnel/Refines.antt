-- ===== src/Relay/Tunnel/Refines.antt =====
-- The steps of the relay's tables against the abstract operation.
use mathlib.Core.Path.{subst}
use codito_mcp.Common.{
  ℕ, String, ◌≡◌, refl, sym, ap, ◌∙◌, inl, inr, Bool, true, false, ◌&&◌, some, List, [], ◌∷◌, arith,
  if◌then◌else◌, ◌==◌, nat_Eq, list_Eq, option_Eq, string_Eq, Bool-cases,
}
use codito_mcp.Common.Dict.{Dict, lookup, Unique, contains}
use codito_mcp.Relay.Types.{Status, Operation, in_progress, dispatched}
use codito_mcp.Relay.Delivery.{
  Event, dispatch, finished, undelivered, happen, mark_dispatched, finish, mark_delivery_failure,
  update_where, is_accepted, terminal_status, failure_status,
}
use codito_mcp.Relay.Tunnel.Types.{Connection, Row, Tables, World}
use codito_mcp.Relay.Tunnel.Record.{rank}
use codito_mcp.Relay.Tunnel.Tickets.{
  consume_ticket, present_ticket, mark_online, touch, mark_offline,
}
use codito_mcp.Relay.Tunnel.Prepare.{mark_sent, was_sent, mark_operation_sent}
use codito_mcp.Relay.Tunnel.Machine.{
  operations_of, put_back, relayed, Step, message, prepare, sent, dispatching, present, opened,
  touched, closed, step, run,
}
use codito_mcp.Relay.Tunnel.Moves.{phase, Moves, stays, Moves-then, waiting-Moves}
use codito_mcp.Relay.Tunnel.Messages.{MovesAt, stays-MovesAt, record-MovesAt}
use codito_mcp.Relay.Tunnel.Deliveries.{prepare-MovesAt}

-- `_mark_operation_sent` and the writes of `dispatch_tool` change rows in place.
abbrev in_place : (String → Row → Row) → Dict String Row → Dict String Row
in_place f [] = []
in_place f ((id, row) ∷ rows) = (id, f id row) ∷ in_place f rows

lookup-in_place :
    (f : String → Row → Row) (id : String) (row : Row) (rows : Dict String Row)
    → lookup id rows ≡ some row
    → lookup id (in_place f rows) ≡ some (f id row)
unfolding lookup
lookup-in_place f id row [] h = absurd (ground arith)
lookup-in_place f id row ((i, r) ∷ rows) h =
    ground (arith, lookup-in_place f id row rows, string_Eq.beq_iff i id)

contains-in_place :
    (f : String → Row → Row) (id : String) (rows : Dict String Row)
    → contains id (in_place f rows) ≡ contains id rows
unfolding lookup
contains-in_place f id [] = refl
contains-in_place f id ((i, r) ∷ rows) = ground (arith, contains-in_place f id rows)

in_place-Unique :
    (f : String → Row → Row) (rows : Dict String Row) → Unique rows → Unique (in_place f rows)
in_place-Unique f [] u = tt
in_place-Unique f ((i, r) ∷ rows) (new, u) =
    (contains-in_place f i rows ∙ new, in_place-Unique f rows u)

in_place-MovesAt :
    (f : String → Row → Row) (id : String) (row : Row) (rows : Dict String Row)
    → Unique rows
    → lookup id rows ≡ some row
    → Moves (phase row.operation) (phase (f id row).operation)
    → MovesAt id row (in_place f rows)
in_place-MovesAt f id row rows u here moves =
    (f id row, in_place-Unique f rows u, lookup-in_place f id row rows here, moves)

mark_sent-in_place :
    (j : String) (now : ℕ) (c : Connection) (rows : Dict String Row)
    → mark_sent j now c rows ≡ in_place (λ id row. if id == j then was_sent now c row else row) rows
unfolding mark_sent
mark_sent-in_place j now c [] = refl
mark_sent-in_place j now c ((id, row) ∷ rows) =
    ap (λ rest. (id, if id == j then was_sent now c row else row) ∷ rest)
      (mark_sent-in_place j now c rows)

was_sent-operation :
    (sending : Bool) (now : ℕ) (c : Connection) (row : Row)
    → (if sending then was_sent now c row else row).operation ≡ row.operation
unfolding was_sent
was_sent-operation sending now c row = ground arith

was_sent-phase :
    (sending : Bool) (now : ℕ) (c : Connection) (row : Row)
    → Moves (phase row.operation) (phase (if sending then was_sent now c row else row).operation)
was_sent-phase sending now c row =
    subst (λ op. Moves (phase row.operation) (phase op))
      (sym (was_sent-operation sending now c row)) (stays (phase row.operation))

-- a guarded write of `dispatch_tool`, on the rows
abbrev guarded : String → (Status → Bool) → (Operation → Operation) → String → Row → Row
guarded j guard f id row = record row {
  operation = if id == j && guard row.operation.status then f row.operation else row.operation;
}

put_back-in_place :
    (j : String) (guard : Status → Bool) (f : Operation → Operation) (rows : Dict String Row)
    → put_back (update_where j guard f (operations_of rows)) rows
      ≡ in_place (guarded j guard f) rows
unfolding update_where
put_back-in_place j guard f [] = refl
put_back-in_place j guard f ((id, row) ∷ rows) =
    ap (λ rest. (id, guarded j guard f id row) ∷ rest) (put_back-in_place j guard f rows)

guarded-Moves :
    (j : String) (guard : Status → Bool) (f : Operation → Operation) (id : String) (row : Row)
    → (guard row.operation.status ≡ true → Moves (phase row.operation) (phase (f row.operation)))
    → Moves (phase row.operation) (phase (guarded j guard f id row).operation)
guarded-Moves j guard f id row moves = elim (Bool-cases (id == j && guard row.operation.status)) [
  | inl writes ↦ rw writes (moves (ground arith))
  | inr keeps ↦ rw keeps (stays (phase row.operation))
]

dispatched-Moves :
    (op : Operation)
    → is_accepted op.status ≡ true
    → Moves (phase op) (phase (record op { status = dispatched }))
unfolding is_accepted in_progress rank
dispatched-Moves op fresh =
    waiting-Moves op (record op { status = dispatched }) (ground arith) (λ _. ground arith)

-- an operation that waits may come to any end
ended-at :
    (old new : Operation)
    → in_progress old.status ≡ true
    → in_progress new.status ≡ false
    → Moves (phase old) (phase new)
ended-at old new live ended = waiting-Moves old new live (λ going. absurd (ground arith))

relayed-MovesAt :
    (event : Event) (id : String) (row : Row) (s : Tables)
    → Unique s.rows
    → lookup id s.rows ≡ some row
    → MovesAt id row (relayed event s).rows
unfolding happen mark_dispatched finish mark_delivery_failure terminal_status failure_status
    in_progress
relayed-MovesAt (dispatch j) id row s u here =
    rw (put_back-in_place j is_accepted (λ op. record op { status = dispatched }) s.rows) (
      in_place-MovesAt (guarded j is_accepted (λ op. record op { status = dispatched })) id row
        s.rows u here
        (guarded-Moves j is_accepted (λ op. record op { status = dispatched }) id row
          (dispatched-Moves row.operation)))
relayed-MovesAt (finished j result durable) id row s u here =
    let f : Operation → Operation =
      (λ op. record op { status = terminal_status result; result = some durable }) in
    rw (put_back-in_place j in_progress f s.rows) (
      in_place-MovesAt (guarded j in_progress f) id row s.rows u here (
        guarded-Moves j in_progress f id row
          (λ live. ended-at row.operation (f row.operation) live (ground arith))))
relayed-MovesAt (undelivered j e) id row s u here =
    let f : Operation → Operation =
      (λ op. record op { status = failure_status e; error_code = e.code }) in
    rw (put_back-in_place j in_progress f s.rows) (
      in_place-MovesAt (guarded j in_progress f) id row s.rows u here (
        guarded-Moves j in_progress f id row
          (λ live. ended-at row.operation (f row.operation) live (ground arith))))

-- what a connection writes leaves the operations alone
consume-rows :
    (w : World) (now : ℕ) (raw signature : String) (s : Tables)
    → (consume_ticket w now raw signature s).1.rows ≡ s.rows
unfolding consume_ticket present_ticket
consume-rows w now raw signature s = ground arith

step-MovesAt :
    (w : World) (next : Step) (id : String) (row : Row) (s : Tables)
    → Unique s.rows
    → lookup id s.rows ≡ some row
    → MovesAt id row (step w next s).rows
unfolding step mark_operation_sent mark_online touch mark_offline
step-MovesAt w (message c e) id row s u here = record-MovesAt w c e id row s u here
step-MovesAt w (prepare now fresh c correlation) id row s u here =
    prepare-MovesAt now fresh correlation c id row s u here
step-MovesAt w (sent j now c) id row s u here = rw (mark_sent-in_place j now c s.rows) (
    in_place-MovesAt (λ i r. if i == j then was_sent now c r else r) id row s.rows u here
      (was_sent-phase (id == j) now c row))
step-MovesAt w (dispatching event) id row s u here = relayed-MovesAt event id row s u here
step-MovesAt w (present now raw signature) id row s u here =
    subst (MovesAt id row) (sym (consume-rows w now raw signature s))
      (stays-MovesAt id row s.rows u here)
step-MovesAt w (opened now c) id row s u here = stays-MovesAt id row s.rows u here
step-MovesAt w (touched now c) id row s u here = stays-MovesAt id row s.rows u here
step-MovesAt w (closed c) id row s u here = stays-MovesAt id row s.rows u here

-- The relay's tables refine one abstract operation per row: whatever messages of devices,
-- deliveries, connections, answers and failures come, in any order, a row that is there stays
-- there, and its operation has moved as the abstract one may. It waits and never falls back, it
-- ends by a guess of the relay or with a result, a guess may still become a result, and nothing
-- takes back a result.
pub run-Moves :
    (w : World) (steps : List Step) (id : String) (row : Row) (s : Tables)
    → Unique s.rows
    → lookup id s.rows ≡ some row
    → (new : Row) × (lookup id (run w steps s).rows ≡ some new)
      × Moves (phase row.operation) (phase new.operation)
unfolding run
run-Moves w [] id row s u here = (row, here, stays (phase row.operation))
run-Moves w (next ∷ rest) id row s u here =
    let (between, u', there, moves) = step-MovesAt w next id row s u here in
    let (new, here', moves') = run-Moves w rest id between (step w next s) u' there in
    (
      new,
      here',
      Moves-then (phase row.operation) (phase between.operation) (phase new.operation) moves moves',
    )
