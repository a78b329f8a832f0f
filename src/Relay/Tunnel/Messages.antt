-- ===== src/Relay/Tunnel/Messages.antt =====
-- Messages of a device against the abstract operation.
use codito_mcp.Relay.Results.{durable_tool_result}
use mathlib.Core.Path.{subst}
use codito_mcp.Common.{
  String, ◌≤◌, ◌≡◌, refl, sym, ap, inl, inr, Bool, true, false, not, ◌||◌, Option, none, some, List,
  [], ◌∷◌, arith, ok, ◌>>◌, raise_if, ◌==◌, nat_Eq, list_Eq, option_Eq, string_Eq, Bool-cases,
  select, >>=-eq-ok, ok-injective, Result-cases,
}
use codito_mcp.Common.Dict.{
  Dict, lookup, insert, Unique, insert-Unique, lookup-select, lookup-insert,
}
use codito_mcp.Db.Json.{Fields}
use codito_mcp.Relay.Types.{Status, in_progress}
use codito_mcp.Relay.Tunnel.Types.{Connection, Envelope, Row, Tables, World, value_error}
use codito_mcp.Relay.Tunnel.Record.{
  rank, normalize, reported, advance, live_row, late_row, reconcile, is_reconcilable, is_result,
  record_ended, record_fresh, record_stale, record_device_message, is_stale, validate_payload,
  ended_as, is_uncertain, has_result,
}
use codito_mcp.Relay.Tunnel.Binding.{
  is_named, get_one, validate_operation_binding, binds_connection, correlation_of, binds_row,
}
use codito_mcp.Relay.Tunnel.Moves.{phase, Moves, stays, waiting-Moves, guessed-Moves, phase-ended}

-- a table after a step: its keys are unique, and the row of `id` has made a move
abbrev pub MovesAt : String → Row → Dict String Row → Type 0
MovesAt id row rows =
    (new : Row) × Unique rows
    × (lookup id rows ≡ some new)
    × Moves (phase row.operation) (phase new.operation)

pub stays-MovesAt :
    (id : String) (row : Row) (rows : Dict String Row)
    → Unique rows
    → lookup id rows ≡ some row
    → MovesAt id row rows
stays-MovesAt id row rows u here = (row, u, here, stays (phase row.operation))

same_row :
    (id j : String) (row old : Row) (rows : Dict String Row)
    → (j == id) ≡ true
    → lookup id rows ≡ some row
    → lookup j rows ≡ some old
    → old ≡ row
same_row id j row old rows same here there = ground (arith, string_Eq.beq_iff j id)

-- one row is saved, with a move
pub save-MovesAt :
    (id j : String) (row old new : Row) (rows : Dict String Row)
    → Unique rows
    → lookup id rows ≡ some row
    → lookup j rows ≡ some old
    → Moves (phase old.operation) (phase new.operation)
    → MovesAt id row (insert j new rows)
save-MovesAt id j row old new rows u here there moves = elim (Bool-cases (j == id)) [
  | inl same ↦ (
    new,
    insert-Unique j new rows u,
    ground (arith, lookup-insert j id new rows),
    subst (λ r. Moves (phase r.operation) (phase new.operation))
        (same_row id j row old rows same here there) moves,
  )
  | inr other ↦ (
    row,
    insert-Unique j new rows u,
    ground (arith, lookup-insert j id new rows),
    stays (phase row.operation),
  )
]

pub get_one-first :
    (rows : List (String × Row)) (found : String × Row)
    → get_one rows ≡ ok found
    → rows ≡ found ∷ []
unfolding get_one
get_one-first [] found h = absurd (ground arith)
get_one-first (a ∷ []) found h = ap (λ r. r ∷ []) (ok-injective a found h)
get_one-first (a ∷ b ∷ rows) found h = absurd (ground arith)

-- the row that a message is bound to
get_one-lookup :
    (p : String × Row → Bool) (found : String × Row) (rows : Dict String Row)
    → Unique rows
    → get_one (select p rows) ≡ ok found
    → lookup found.0 rows ≡ some found.1
get_one-lookup p found rows u h =
    lookup-select p found.0 found.1 [] rows u (get_one-first (select p rows) found h)

pub binding-lookup :
    (c : Connection) (e : Envelope) (s : Tables) (found : String × Row)
    → Unique s.rows
    → validate_operation_binding c e s ≡ ok found
    → lookup found.0 s.rows ≡ some found.1
unfolding validate_operation_binding
binding-lookup c e s found u h =
    let (correlation, _, last) =
      >>=-eq-ok
        (raise_if (not (binds_connection c e)) value_error >> correlation_of e.correlation_id) _
        h in
    let (row, here, checked) =
      >>=-eq-ok (get_one (select (λ r. is_named s c correlation r.1) s.rows)) _ last in
    let (_, _, same) = >>=-eq-ok (raise_if (not (binds_row e row.1)) value_error) _ checked in
    subst (λ r. lookup r.0 s.rows ≡ some r.1) (ok-injective row found same)
      (get_one-lookup (λ r. is_named s c correlation r.1) row s.rows u here)

rank-advance : (new : Option Status) (old : Status) → rank old ≤ rank (advance new old)
unfolding advance
rank-advance none old = omega arith
rank-advance (some new) old = ground arith

pub live-status :
    (w : World) (c : Connection) (e : Envelope) (row : Row)
    → (live_row w c e row).operation.status ≡ advance (reported row e) row.operation.status
unfolding live_row
live-status w c e row = elim (Bool-cases (is_result e.kind)) [
  | inl h ↦ rw h refl
  | inr h ↦ rw h refl
]

-- what a live operation becomes is no further back
live-Moves :
    (w : World) (c : Connection) (e : Envelope) (row : Row)
    → in_progress row.operation.status ≡ true
    → Moves (phase row.operation) (phase (live_row w c e row).operation)
live-Moves w c e row live = waiting-Moves row.operation (live_row w c e row).operation live (λ _.
    subst (λ status. rank row.operation.status ≤ rank status) (sym (live-status w c e row))
      (rank-advance (reported row e) row.operation.status))

pub ended_as-ended :
    (uncertain : Bool) (payload : Fields) → in_progress (ended_as uncertain payload) ≡ false
unfolding ended_as in_progress
ended_as-ended uncertain payload = ground arith

late-Moves :
    (w : World) (c : Connection) (e : Envelope) (row : Row) (valid : Fields)
    → in_progress row.operation.status ≡ false
    → is_reconcilable row.operation ≡ true
    → Moves (phase row.operation) (phase (late_row w c e row valid).operation)
unfolding late_row is_reconcilable
late-Moves w c e row valid ended free =
    subst (Moves (phase row.operation))
      (sym (
        phase-ended (late_row w c e row valid).operation
          (ended_as-ended (is_uncertain row e.payload) valid) refl))
      (guessed-Moves row.operation (ended_as (is_uncertain row e.payload) valid)
        (durable_tool_result w.contracts valid) ended (ground arith))

reconcile-MovesAt :
    (w : World) (c : Connection) (e : Envelope) (id j : String) (row old : Row) (s : Tables)
    → Unique s.rows
    → lookup id s.rows ≡ some row
    → lookup j s.rows ≡ some old
    → in_progress old.operation.status ≡ false
    → is_reconcilable old.operation ≡ true
    → MovesAt id row (reconcile w c e j old s).1.rows
unfolding reconcile
reconcile-MovesAt w c e id j row old s u here there ended free =
    elim (Result-cases (validate_payload w old e.payload)) [
      | inr (refusal, h) ↦ rw (h, reconcile) (stays-MovesAt id row s.rows u here)
      | inl (valid, h) ↦
          rw (h, reconcile)
            (save-MovesAt id j row old (late_row w c e old valid) s.rows u here there
              (late-Moves w c e old valid ended free))
    ]

-- a message
record_ended-MovesAt :
    (w : World) (c : Connection) (e : Envelope) (id j : String) (row old : Row) (s : Tables)
    → Unique s.rows
    → lookup id s.rows ≡ some row
    → lookup j s.rows ≡ some old
    → in_progress old.operation.status ≡ false
    → MovesAt id row (record_ended w c e j old s).1.rows
unfolding record_ended
record_ended-MovesAt w c e id j row old s u here there ended =
    elim (Bool-cases (not (is_result e.kind) || has_result w old.operation.result e.payload)) [
      | inl same ↦ rw (same, record_ended) (stays-MovesAt id row s.rows u here)
      | inr differs ↦ elim (Bool-cases (is_reconcilable old.operation)) [
        | inl free ↦
            rw (differs, free, record_ended)
              (reconcile-MovesAt w c e id j row old s u here there ended free)
        | inr kept ↦ rw (differs, kept, record_ended) (stays-MovesAt id row s.rows u here)
      ]
    ]

record_fresh-MovesAt :
    (w : World) (c : Connection) (e : Envelope) (id j : String) (row old : Row) (s : Tables)
    → Unique s.rows
    → lookup id s.rows ≡ some row
    → lookup j s.rows ≡ some old
    → MovesAt id row (record_fresh w c e j old s).1.rows
unfolding record_fresh
record_fresh-MovesAt w c e id j row old s u here there =
    elim (Bool-cases (in_progress old.operation.status)) [
      | inl live ↦ rw live (
          save-MovesAt id j row old (live_row w c e old) s.rows u here there
            (live-Moves w c e old live))
      | inr ended ↦ rw ended (record_ended-MovesAt w c e id j row old s u here there ended)
    ]

record_stale-unchanged :
    (w : World) (e : Envelope) (id : String) (row : Row) (s : Tables)
    → (record_stale w e id row s).1 ≡ s
unfolding record_stale
record_stale-unchanged w e id row s = ground arith

pub record-MovesAt :
    (w : World) (c : Connection) (e : Envelope) (id : String) (row : Row) (s : Tables)
    → Unique s.rows
    → lookup id s.rows ≡ some row
    → MovesAt id row (record_device_message w c e s).1.rows
unfolding record_device_message
record-MovesAt w c e id row s u here = elim (Result-cases (validate_operation_binding c e s)) [
  | inr (refusal, h) ↦ rw (h, record_device_message) (stays-MovesAt id row s.rows u here)
  | inl ((j, old), h) ↦ elim (Bool-cases (is_stale c e old)) [
    | inl stale ↦
        rw (h, stale, record_device_message, record_stale-unchanged w (normalize w old e) j old s)
          (stays-MovesAt id row s.rows u here)
    | inr fresh ↦
        rw (h, fresh, record_device_message)
          (record_fresh-MovesAt w c (normalize w old e) id j row old s u here
            (binding-lookup c e s (j, old) u h))
  ]
]
