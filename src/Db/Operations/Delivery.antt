-- ===== src/Db/Operations/Delivery.antt =====
-- Redelivery, and the listing of terminal results.
use codito_mcp.Common.Dict.{lookup, contains, insert, lookup-insert_self}
use codito_mcp.Common.{
  ℕ, String, ◌≤◌, ◌≡◌, refl, sym, ap, ◌∙◌, ◌≢◌, ◌↔◌, inl, inr, Bool, true, false, not, ◌&&◌, ◌||◌,
  Option, some, List, arith, ok, nat_Eq, list_Eq, option_Eq, string_Eq, Bool-cases,
}
use codito_mcp.Models.{state_Eq}
use codito_mcp.Db.Json.{Json}
use codito_mcp.Db.Operations.{
  Binding, Operation, Operations, references, new_operation, redelivered, record_received,
  acknowledges, acknowledged, unacknowledged, lookup,
}
use codito_mcp.Db.Operations.Receipts.{Call, run, run-Evolves, received_known, received_new}
use codito_mcp.Db.Operations.Evolving.{binding_eq_iff}

-- the answer to a redelivery, by the row that is there
redelivered-answer :
    (id : String) (b : Binding) (epoch now : ℕ) (ops : Operations) (row : Operation)
    → ((redelivered id b epoch now ops (some row)).0 ≡ ok false)
      ↔ ((row.binding ≡ b) × (row.connection_epoch ≤ epoch))
unfolding redelivered
redelivered-answer id b epoch now ops row = (
  λ h. ground (arith, binding_eq_iff row.binding b),
  λ h. ground (arith, binding_eq_iff row.binding b),
)

pub redelivered-ne :
    (id : String) (b : Binding) (epoch now : ℕ) (ops : Operations) (found : Option Operation)
    → (redelivered id b epoch now ops found).0 ≢ ok true
unfolding redelivered
redelivered-ne id b epoch now ops found h = ground arith

known :
    (id : String) (ops : Operations) (row : Operation) (other : Bool)
    → lookup id ops ≡ some row
    → (contains id ops || other) ≡ true
known id ops row other h = rw h refl

-- A redelivery of a known operation is answered `false` exactly if it repeats the binding on a
-- connection that is no older; otherwise it raises.
record_received_iff :
    (ps : List String) (id : String) (b : Binding) (req : Option Json) (epoch now : ℕ)
    (ops : Operations) (row : Operation)
    → lookup id ops ≡ some row
    → ((record_received ps id b req epoch now ops).0 ≡ ok false)
      ↔ ((row.binding ≡ b) × (row.connection_epoch ≤ epoch))
record_received_iff ps id b req epoch now ops row h =
    rw (received_known ps id b req epoch now ops (known id ops row _ h))
      (rw h (redelivered-answer id b epoch now ops row))

-- An operation that was accepted is never accepted again, whatever the second delivery carries and
-- whatever comes between: calls of `record_received`, `transition_operation` and
-- `acknowledge_terminal`, and the update of a rotation of the projects' names.
pub accepted_once :
    (ps qs : List String) (id : String) (b c : Binding) (req req' : Option Json)
    (epoch epoch' now now' : ℕ) (ops : Operations) (calls : List Call)
    → (record_received ps id b req epoch now ops).0 ≡ ok true
    → (record_received qs id c req' epoch' now'
        (run calls (record_received ps id b req epoch now ops).1)).0
      ≢ ok true
accepted_once ps qs id b c req req' epoch epoch' now now' ops calls h =
    elim (Bool-cases (contains id ops || not (references ps b.project_id))) [
      | inl old ↦ absurd (
          redelivered-ne id b epoch now ops (lookup id ops)
            (sym (ap (λ r. r.0) (received_known ps id b req epoch now ops old)) ∙ h))
      | inr new ↦
          let row = new_operation b req epoch now in
          let (later, found, _) =
            run-Evolves calls id (insert id row ops) row (lookup-insert_self id row ops) in
          rw
            (
              received_new ps id b req epoch now ops new,
              received_known qs id c req' epoch' now' (run calls (insert id row ops))
                  (known id _ later _ found),
            )
            (redelivered-ne id c epoch' now' (run calls (insert id row ops)) _)
    ]

-- An acknowledgement takes exactly the rows that it names off the list of results to send again.
unacknowledged-acknowledged :
    (b : Binding) (now : ℕ) (row : Operation)
    → unacknowledged (acknowledged b now row) ≡ (unacknowledged row && not (acknowledges b row))
unfolding unacknowledged
unacknowledged-acknowledged b now row = elim (Bool-cases (acknowledges b row)) [
  | inl t ↦ rw t (ground arith)
  | inr f ↦ rw f (ground arith)
]
