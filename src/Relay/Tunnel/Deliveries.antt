-- ===== src/Relay/Tunnel/Deliveries.antt =====
-- Deliveries against the abstract operation.
use codito_mcp.Common.{
  ℕ, String, ◌≡◌, refl, inl, inr, true, some, List, [], ◌∷◌, arith, nat_Eq, list_Eq, option_Eq,
  string_Eq, Option-cases, select, Bool-cases,
}
use codito_mcp.Common.Dict.{lookup, Unique, lookup-select}
use codito_mcp.Relay.Types.{in_progress}
use codito_mcp.Relay.Tunnel.Types.{Connection, Row, Tables}
use codito_mcp.Relay.Tunnel.Binding.{has_epoch}
use codito_mcp.Relay.Tunnel.Prepare.{
  ending, ended_row, attempted_row, prepare_row, prepare_found, prepare_operation_dispatch,
  is_wanted, Ending,
}
use codito_mcp.Relay.Tunnel.Moves.{phase, Moves, stays, waiting-Moves}
use codito_mcp.Relay.Tunnel.Messages.{MovesAt, stays-MovesAt, save-MovesAt}

attempted-Moves :
    (now : ℕ) (c : Connection) (row : Row)
    → Moves (phase row.operation) (phase (attempted_row now c row).operation)
unfolding attempted_row phase
attempted-Moves now c row = stays (phase row.operation)

ended_row-live :
    (now : ℕ) (c : Connection) (end : Ending) (row : Row)
    → ending now row ≡ some end
    → ¬ (in_progress (ended_row c end row).operation.status ≡ true)
unfolding ending ended_row in_progress
ended_row-live now c end row h live = ground arith

prepare_row-MovesAt :
    (now : ℕ) (fresh : String) (c : Connection) (id j : String) (row old : Row) (s : Tables)
    → Unique s.rows
    → lookup id s.rows ≡ some row
    → lookup j s.rows ≡ some old
    → in_progress old.operation.status ≡ true
    → MovesAt id row (prepare_row now fresh c j old s).1.rows
unfolding prepare_row
prepare_row-MovesAt now fresh c id j row old s u here there live =
    elim (Option-cases (ending now old)) [
      | inl h ↦
          rw (h, prepare_row)
            (save-MovesAt id j row old (attempted_row now c old) s.rows u here there
              (attempted-Moves now c old))
      | inr (end, h) ↦
          rw (h, prepare_row)
            (save-MovesAt id j row old (ended_row c end old) s.rows u here there (
              waiting-Moves old.operation (ended_row c end old).operation live
                (λ going. absurd (ended_row-live now c end old h going))))
    ]

prepare_found-MovesAt :
    (now : ℕ) (fresh : String) (c : Connection) (id : String) (row : Row)
    (found : List (String × Row)) (s : Tables)
    → Unique s.rows
    → lookup id s.rows ≡ some row
    → ((j : String) (old : Row) (rest : List (String × Row))
        → found ≡ (j, old) ∷ rest
        → lookup j s.rows ≡ some old)
    → MovesAt id row (prepare_found now fresh c found s).1.rows
unfolding prepare_found
prepare_found-MovesAt now fresh c id row [] s u here there = stays-MovesAt id row s.rows u here
prepare_found-MovesAt now fresh c id row ((j, old) ∷ rest) s u here there =
    elim (Bool-cases (has_epoch c.epoch (lookup old.operation.scope.device s.devices))) [
      | inr fenced ↦ rw (fenced, prepare_found) (stays-MovesAt id row s.rows u here)
      | inl current ↦ elim (Bool-cases (in_progress old.operation.status)) [
        | inr ended ↦ rw (current, ended, prepare_found) (stays-MovesAt id row s.rows u here)
        | inl live ↦
            rw (current, live, prepare_found)
              (prepare_row-MovesAt now fresh c id j row old s u here (there j old rest refl) live)
      ]
    ]

pub prepare-MovesAt :
    (now : ℕ) (fresh correlation : String) (c : Connection) (id : String) (row : Row) (s : Tables)
    → Unique s.rows
    → lookup id s.rows ≡ some row
    → MovesAt id row (prepare_operation_dispatch now fresh c correlation s).1.rows
unfolding prepare_operation_dispatch
prepare-MovesAt now fresh correlation c id row s u here =
    prepare_found-MovesAt now fresh c id row (select (λ r. is_wanted c correlation r.1) s.rows) s u
      here (λ j old rest h. lookup-select (λ r. is_wanted c correlation r.1) j old rest s.rows u h)
