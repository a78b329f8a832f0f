-- ===== src/Db/Operations/Evolving.antt =====
-- What a step keeps of a receipt.
use codito_mcp.Common.Dict.{lookup, insert, contains, lookup-insert}
use codito_mcp.Common.{
  ℕ, String, ◌≤◌, ◌≡◌, refl, sym, ap, ◌∙◌, ◌↔◌, inl, inr, true, false, not, ◌&&◌, ◌||◌, Option,
  none, some, [], ◌∷◌, arith, if◌then◌else◌, ◌==◌, nat_Eq, list_Eq, option_Eq, string_Eq,
  option_beq_iff, eq_self, Bool-cases, ltb,
}
use codito_mcp.Models.{OperationState, is_terminal, state_Eq}
use codito_mcp.Db.Json.{Json}
use codito_mcp.Db.Operations.{
  Binding, binding_eq, Operation, Operations, redelivered, move_to, acknowledges, acknowledged,
  acknowledge_rows, lookup,
}

binding_eq_self : (a : Binding) → binding_eq a a ≡ true
unfolding binding_eq
binding_eq_self a = ground (
  arith,
  eq_self a.correlation_id,
  eq_self a.account_id,
  eq_self a.grant_id,
  eq_self a.link_id,
  eq_self a.device_id,
  eq_self a.project_id,
  eq_self a.capability,
  eq_self a.action_digest,
  eq_self a.idempotency_key,
  eq_self a.request_digest,
  eq_self a.deadline_at,
)

pub binding_eq_iff : (a b : Binding) → (binding_eq a b ≡ true) ↔ (a ≡ b)
unfolding binding_eq
binding_eq_iff a b = (
  λ h. ground (
    arith,
    string_Eq.beq_iff a.correlation_id b.correlation_id,
    string_Eq.beq_iff a.account_id b.account_id,
    string_Eq.beq_iff a.grant_id b.grant_id,
    string_Eq.beq_iff a.link_id b.link_id,
    string_Eq.beq_iff a.device_id b.device_id,
    option_beq_iff a.project_id b.project_id,
    string_Eq.beq_iff a.capability b.capability,
    string_Eq.beq_iff a.action_digest b.action_digest,
    option_beq_iff a.idempotency_key b.idempotency_key,
    string_Eq.beq_iff a.request_digest b.request_digest,
    string_Eq.beq_iff a.deadline_at b.deadline_at,
  ),
  λ e. ap (binding_eq a) (sym e) ∙ binding_eq_self a,
)

pub lookup-acknowledge :
    (id : String) (b : Binding) (now : ℕ) (ops : Operations) (row : Operation)
    → lookup id ops ≡ some row
    → lookup id (acknowledge_rows b now ops) ≡ some (acknowledged b now row)
unfolding acknowledge_rows lookup
lookup-acknowledge id b now [] row h = absurd (ground arith)
lookup-acknowledge id b now ((j, r) ∷ ops) row h =
    ground (arith, lookup-acknowledge id b now ops row)

-- what the three methods that write a receipt do not change in a row, and what only grows
pub record Advances (old new : Operation) : Type 0 where
  pub binding : new.binding ≡ old.binding
  pub received_at : new.received_at ≡ old.received_at
  pub epoch : old.connection_epoch ≤ new.connection_epoch
  pub final : is_terminal old.state ≡ true → new.state ≡ old.state

pub Advances-refl : (r : Operation) → Advances r r
Advances-refl r = record {
  binding = refl;
  received_at = refl;
  epoch = omega arith;
  final = λ _. refl;
}

pub Advances-trans : {a b c : Operation} → Advances a b → Advances b c → Advances a c
Advances-trans {a} {b} {c} p q = record {
  binding = q.binding ∙ p.binding;
  received_at = q.received_at ∙ p.received_at;
  epoch = omega (arith, p.epoch, q.epoch);
  final = λ t. q.final (ap is_terminal (p.final t) ∙ t) ∙ p.final t;
}

-- The row of `id` is kept, evolved.
abbrev pub Keeps : String → Operation → Operations → Type 0
Keeps id row ops = (new : Operation) × (lookup id ops ≡ some new) × Advances row new

pub Keeps-same :
    (id : String) (row : Operation) (ops : Operations) → lookup id ops ≡ some row → Keeps id row ops
Keeps-same id row ops h = (row, h, Advances-refl row)

pub Keeps-insert :
    (id j : String) (row old new : Operation) (ops : Operations)
    → lookup id ops ≡ some row
    → lookup j ops ≡ some old
    → Advances old new
    → Keeps id row (insert j new ops)
Keeps-insert id j row old new ops h k ev = elim (Bool-cases (string_Eq.beq j id)) [
  | inl same ↦
      let e : j ≡ id = (string_Eq.beq_iff j id).0 same in
      let q : ◌≡◌ {A = Option Operation} (some old) (some row) =
        sym k ∙ ap (λ x. lookup x ops) e ∙ h in
      let r : old ≡ row = cc in
      (
        new,
        lookup-insert j id new ops ∙ ap (λ c. if c then some new else lookup id ops) same,
        rw r at ev,
      )
  | inr other ↦ (
    row,
    lookup-insert j id new ops ∙ ap (λ c. if c then some new else lookup id ops) other ∙ h,
    Advances-refl row,
  )
]

-- A new row takes no other's place.
pub Keeps-new :
    (id j : String) (row new : Operation) (ops : Operations)
    → lookup id ops ≡ some row
    → contains j ops ≡ false
    → Keeps id row (insert j new ops)
Keeps-new id j row new ops h k =
    (row, ground (arith, lookup-insert j id new ops, string_Eq.beq_iff j id), Advances-refl row)

pub redelivered-Keeps :
    (j id : String) (b : Binding) (epoch now : ℕ) (ops : Operations) (row : Operation)
    → lookup id ops ≡ some row
    → (found : Option Operation) → lookup j ops ≡ found
    → Keeps id row (redelivered j b epoch now ops found).1
unfolding redelivered
redelivered-Keeps j id b epoch now ops row h none k = Keeps-same id row ops h
redelivered-Keeps j id b epoch now ops row h (some old) k =
    elim (Bool-cases (not (binding_eq old.binding b) || ltb epoch old.connection_epoch)) [
      | inl bad ↦ rw bad (Keeps-same id row ops h)
      | inr good ↦ rw good (elim (Bool-cases (ltb old.connection_epoch epoch)) [
        | inl newer ↦ rw newer (
            Keeps-insert id j row old (record old { connection_epoch = epoch; updated_at = now })
              ops h k
              (record {
                binding = refl;
                received_at = refl;
                epoch = ground arith;
                final = λ _. refl;
              }))
        | inr same ↦ rw same (Keeps-same id row ops h)
      ])
    ]

pub move_to-Advances :
    (state : OperationState) (result : Option Json) (now : ℕ) (old : Operation)
    → (is_terminal old.state && not (old.state == state)) ≡ false
    → Advances old (move_to state result now old)
move_to-Advances state result now old h = record {
  binding = refl;
  received_at = refl;
  epoch = omega arith;
  final = λ t. sym ((state_Eq.beq_iff old.state state).0 (ground arith));
}

pub acknowledged-Advances :
    (b : Binding) (now : ℕ) (row : Operation) → Advances row (acknowledged b now row)
acknowledged-Advances b now row = elim (Bool-cases (acknowledges b row)) [
  | inl t ↦
      rw t (record { binding = refl; received_at = refl; epoch = omega arith; final = λ _. refl })
  | inr f ↦ rw f (Advances-refl row)
]
