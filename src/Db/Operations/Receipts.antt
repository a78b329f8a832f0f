-- ===== src/Db/Operations/Receipts.antt =====
-- The life of a receipt, over any of what writes the table: three methods, and the update of a
-- rotation of the projects' names.
use codito_mcp.Db.Operations.Evolving.{
  lookup-acknowledge, Keeps, Keeps-same, Keeps-insert, Keeps-new, redelivered-Keeps,
  move_to-Advances, acknowledged-Advances,
}
use codito_mcp.Db.Projects.Rotation.{repoint, repoint_operations, Tables, rotate_one, rotate_all}
use mathlib.Core.Path.{subst}
use codito_mcp.Common.Dict.{lookup, insert, contains}
use codito_mcp.Common.{
  ℕ, String, ◌≡◌, ◌≤◌, ◌∙◌, refl, ap, inl, inr, true, false, not, ◌&&◌, ◌||◌, Option, some, List,
  [], ◌∷◌, arith, if◌then◌else◌, ok, ◌==◌, nat_Eq, list_Eq, option_Eq, string_Eq, Bool-cases,
  Option-cases, map, sym, ok-injective, >>=-eq-ok,
}
use codito_mcp.Models.{OperationState, is_terminal, state_Eq}
use codito_mcp.Db.Json.{Json}
use codito_mcp.Db.Operations.{
  Binding, Operation, Operations, references, new_operation, redelivered, record_received, move_to,
  transition_operation, acknowledged, acknowledge_terminal, lookup,
}

-- One write: `record_received`, `transition_operation`, `acknowledge_terminal`, or what
-- `rotate_project_ids` does to the receipts for one project.
pub data Call : Type 0 where
  receive : List String → String → Binding → Option Json → ℕ → ℕ → Call
  transition : String → OperationState → Option Json → ℕ → Call
  acknowledge : Binding → ℕ → Call
  rename : String → String → Call

unfoldable pub perform : Call → Operations → Operations
perform (receive ps id b req epoch now) ops = (record_received ps id b req epoch now ops).1
perform (transition id state result now) ops = (transition_operation id state result now ops).1
perform (acknowledge b now) ops = (acknowledge_terminal b now ops).1
perform (rename old new) ops = repoint_operations old new ops

unfoldable pub run : List Call → Operations → Operations
run [] ops = ops
run (c ∷ cs) ops = run cs (perform c ops)

pub received_known :
    (ps : List String) (id : String) (b : Binding) (req : Option Json) (epoch now : ℕ)
    (ops : Operations)
    → (contains id ops || not (references ps b.project_id)) ≡ true
    → record_received ps id b req epoch now ops ≡ redelivered id b epoch now ops (lookup id ops)
unfolding record_received
received_known ps id b req epoch now ops h =
    ap
      (λ t.
        if t
        then redelivered id b epoch now ops (lookup id ops)
        else (ok true, insert id (new_operation b req epoch now) ops))
      h

pub received_new :
    (ps : List String) (id : String) (b : Binding) (req : Option Json) (epoch now : ℕ)
    (ops : Operations)
    → (contains id ops || not (references ps b.project_id)) ≡ false
    → record_received ps id b req epoch now ops
      ≡ (ok true, insert id (new_operation b req epoch now) ops)
unfolding record_received
received_new ps id b req epoch now ops h =
    ap
      (λ t.
        if t
        then redelivered id b epoch now ops (lookup id ops)
        else (ok true, insert id (new_operation b req epoch now) ops))
      h

-- what a write makes of a receipt's project
unfoldable pub renamed_by : Call → Option String → Option String
renamed_by (rename old new) project = repoint old new project
renamed_by (receive _ _ _ _ _ _) project = project
renamed_by (transition _ _ _ _) project = project
renamed_by (acknowledge _ _) project = project

unfoldable pub renamed : List Call → Option String → Option String
renamed [] project = project
renamed (c ∷ cs) project = renamed cs (renamed_by c project)

-- The receipt's project is given; of the rest, what cannot change and what only grows.
pub record Evolves (project : Option String) (old new : Operation) : Type 0 where
  pub binding : new.binding ≡ record old.binding { project_id = project }
  pub received_at : new.received_at ≡ old.received_at
  pub epoch : old.connection_epoch ≤ new.connection_epoch
  pub final : is_terminal old.state ≡ true → new.state ≡ old.state

Evolves-trans :
    {p q : Option String} {a b c : Operation} → Evolves p a b → Evolves q b c → Evolves q a c
Evolves-trans {q = q} h k = record {
  binding = k.binding ∙ ap (λ (x : Binding). record x { project_id = q }) h.binding;
  received_at = k.received_at ∙ h.received_at;
  epoch = omega (arith, h.epoch, k.epoch);
  final = λ t. k.final (ap is_terminal (h.final t) ∙ t) ∙ h.final t;
}

abbrev KeepsAs : Option String → String → Operation → Operations → Type 0
KeepsAs project id row ops =
    (new : Operation) × (lookup id ops ≡ some new) × Evolves project row new

Keeps-As :
    (id : String) (row : Operation) (ops : Operations)
    → Keeps id row ops
    → KeepsAs row.binding.project_id id row ops
Keeps-As id row ops (new, there, a) = (
  new,
  there,
  record { binding = a.binding; received_at = a.received_at; epoch = a.epoch; final = a.final },
)

abbrev pointed : String → String → Operation → Operation
pointed old new row = record row {
  binding = record row.binding { project_id = repoint old new row.binding.project_id };
}

lookup-repoint :
    (old new id : String) (ops : Operations) (row : Operation)
    → lookup id ops ≡ some row
    → lookup id (repoint_operations old new ops) ≡ some (pointed old new row)
unfolding repoint_operations lookup
lookup-repoint old new id [] row h = absurd (ground arith)
lookup-repoint old new id ((j, r) ∷ ops) row h = elim (Bool-cases (j == id)) [
  | inl same ↦
      let e : ◌≡◌ {A = Option Operation} (some r) (some row) = rw (same, lookup) at h in
      let q : r ≡ row = cc in rw same (ap (λ x. some (pointed old new x)) q)
  | inr other ↦ rw other (lookup-repoint old new id ops row (rw (other, lookup) at h))
]

perform-Keeps :
    (c : Call) (id : String) (ops : Operations) (row : Operation)
    → lookup id ops ≡ some row
    → KeepsAs (renamed_by c row.binding.project_id) id row (perform c ops)
unfolding renamed_by perform transition_operation acknowledge_terminal
perform-Keeps (receive ps j b req epoch now) id ops row h =
    Keeps-As id row _ (elim (Bool-cases (contains j ops || not (references ps b.project_id))) [
      | inl known ↦
          rw (received_known ps j b req epoch now ops known, perform)
            (redelivered-Keeps j id b epoch now ops row h (lookup j ops) refl)
      | inr new ↦
          rw (received_new ps j b req epoch now ops new, perform)
            (Keeps-new id j row (new_operation b req epoch now) ops h (ground arith))
    ])
perform-Keeps (transition j state result now) id ops row h =
    Keeps-As id row _ (elim (Option-cases (lookup j ops)) [
      | inl missing ↦ rw (missing, perform, transition_operation) (Keeps-same id row ops h)
      | inr (old, found) ↦
          rw (found, perform, transition_operation)
            (elim (Bool-cases (is_terminal old.state && not (old.state == state))) [
              | inl final ↦ rw final (Keeps-same id row ops h)
              | inr free ↦ rw free (
                  Keeps-insert id j row old (move_to state result now old) ops h found
                    (move_to-Advances state result now old free))
            ])
    ])
perform-Keeps (acknowledge b now) id ops row h =
    Keeps-As id row _ (
      acknowledged b now row,
      lookup-acknowledge id b now ops row h,
      acknowledged-Advances b now row,
    )
perform-Keeps (rename old new) id ops row h = (
  pointed old new row,
  lookup-repoint old new id ops row h,
  record { binding = refl; received_at = refl; epoch = omega arith; final = λ _. refl },
)

-- Whatever writes the receipts, in whatever order, be it `record_received`, `transition_operation`,
-- `acknowledge_terminal` or the update of a rotation of the projects' names, a receipt that is there
-- is never lost: its project is the one that the rotations among the writes make of it, the rest of
-- what it is bound to never changes, its connection epoch never falls, and a terminal state is final.
pub run-Evolves :
    (calls : List Call) (id : String) (ops : Operations) (row : Operation)
    → lookup id ops ≡ some row
    → (new : Operation) × (lookup id (run calls ops) ≡ some new)
      × Evolves (renamed calls row.binding.project_id) row new
unfolding run renamed
run-Evolves [] id ops row h =
    (row, h, record { binding = refl; received_at = refl; epoch = omega arith; final = λ _. refl })
run-Evolves (c ∷ cs) id ops row h =
    let (mid, k, ev) = perform-Keeps c id ops row h in
    let (new, k', ev') = run-Evolves cs id (perform c ops) mid k in
    (
      new,
      k',
      Evolves-trans ev (
          subst (λ p. Evolves (renamed cs p) mid new)
            (ap (λ (b : Binding). b.project_id) ev.binding) ev'),
    )

-- A rotation that is made does to the receipts what the updates for its pairs do, one after another.
rotate_all-run :
    (pairs : List (String × String)) (now : ℕ) (t u : Tables)
    → rotate_all pairs now t ≡ ok u
    → u.operations ≡ run (map (λ r. rename r.0 r.1) pairs) t.operations
unfolding rotate_all rotate_one run perform
rotate_all-run [] now t u h = ap (λ (x : Tables). x.operations) (sym (ok-injective t u h))
rotate_all-run ((old, new) ∷ pairs) now t u h =
    let (mid, one, rest) = >>=-eq-ok (rotate_one old new now t) (rotate_all pairs now) h in
    elim (Bool-cases (contains new t.projects && not (old == new))) [
      | inl taken ↦ absurd (let q = rw (taken, rotate_one) at one in ground arith)
      | inr free ↦
          let e =
            ap (λ (x : Tables). x.operations) (ok-injective _ mid (rw (free, rotate_one) at one)) in
          rotate_all-run pairs now mid u rest ∙ ap (run (map (λ r. rename r.0 r.1) pairs)) (sym e)
    ]
