-- ===== src/Client/Started.antt =====
-- When a turn starts a task: on a new receipt, or on an old one of an action that may be repeated.
use mathlib.Core.Path.{subst}
use codito_mcp.Common.{
  ℕ, String, ◌≡◌, refl, sym, ap, ◌∙◌, ◌⊎◌, inl, inr, Bool, true, false, not, ◌&&◌, ◌||◌, Option,
  some, List, arith, ok, err, ◌==◌, nat_Eq, list_Eq, option_Eq, string_Eq, Option-cases, Bool-cases,
  any, is_some, Result-cases, eq_self,
}
use codito_mcp.Common.Dict.{lookup, contains, lookup-insert_self}
use codito_mcp.Db.Json.{Json, obj}
use codito_mcp.Db.Activity.{activity_safe_value}
use codito_mcp.Db.Operations.{Binding, Operations, record_received, new_operation, references}
use codito_mcp.Db.Operations.Delivery.{redelivered-ne}
use codito_mcp.Db.Operations.Receipts.{received_known, received_new}
use codito_mcp.Client.Types.{Agent, Setting, Budget, Moment, Received, budget_from, not_given}
use codito_mcp.Client.Send.{Outgoing, send_new, result_of}
use codito_mcp.Client.Receive.{Effect, Turn}
use codito_mcp.Client.Request.{Request, receipt_of}
use codito_mcp.Client.Accept.{
  emit, start_dispatch, before_turn, reconcile, stored_payload, retried_budget,
  is_uncertain_native_action, after_receipt, accept_request, receipt_message,
}
use codito_mcp.Client.Kept.{received-kept, Quiet, Starts, plain_turn, emit-Quiet, same-Quiet}
use codito_mcp.Client.Quiet.{terminalize-Quiet}

-- a task of another operation
other-Quiet :
    (id j : String) (budget : Budget) (reconciling : Bool) (a : Agent)
    → (j == id) ≡ false
    → Quiet id a (start_dispatch j budget reconciling a)
unfolding start_dispatch
other-Quiet id j budget reconciling a other = record { none_started = ground arith; kept = λ h. h }

-- a redelivery of an action that must not be repeated, or of another operation
pub reconcile-Quiet :
    (set : Setting) (now : Moment) (r : Received) (request : Request) (id : String) (a : Agent)
    → (r.envelope.message_id == id && not (is_uncertain_native_action request.tool request.input))
      ≡ false
    → Quiet id a (plain_turn (reconcile set now r request a))
unfolding reconcile
reconcile-Quiet set now r request id a safe =
    let e = r.envelope in
    elim (Option-cases (stored_payload (lookup e.message_id a.operations))) [
      | inr (payload, h) ↦ rw (h, reconcile) (emit-Quiet set (result_of e payload) id a)
      | inl h ↦ elim (Bool-cases (any (λ t. t == e.message_id) a.client.running)) [
        | inl active ↦ rw (h, active, reconcile) (same-Quiet id a a refl)
        | inr idle ↦ elim (Bool-cases (is_uncertain_native_action request.tool request.input)) [
          | inl native ↦ rw (h, idle, native, reconcile) (terminalize-Quiet set e id a)
          | inr usual ↦
              rw (h, idle, usual, reconcile)
                (other-Quiet id e.message_id
                  (retried_budget r request now (lookup e.message_id a.operations)
                    (lookup e.message_id a.client.budgets))
                  true a (ground arith))
        ]
      ]
    ]

-- the same, with what was sent before
before-Quiet :
    (set : Setting) (o : Outgoing) (id : String) (a b : Agent) (t : Turn)
    → (contains id a.operations ≡ true → contains id b.operations ≡ true)
    → Quiet id (emit set o b).1 (plain_turn t)
    → Quiet id a (plain_turn (before_turn (emit set o b).0 t))
unfolding emit
before-Quiet set o id a b (err error, c) kept q = record {
  none_started = refl;
  kept = λ h. q.kept (kept h);
}
before-Quiet set o id a b (ok effects, c) kept q = record {
  none_started = omega (arith, q.none_started);
  kept = λ h. q.kept (kept h);
}

-- a new receipt
record_received-fresh :
    (ps : List String) (id : String) (b : Binding) (req : Option Json) (epoch now : ℕ)
    (ops : Operations)
    → (record_received ps id b req epoch now ops).0 ≡ ok true
    → (contains id ops ≡ false) × (contains id (record_received ps id b req epoch now ops).1 ≡ true)
record_received-fresh ps id b req epoch now ops h =
    elim (Bool-cases (contains id ops || not (references ps b.project_id))) [
      | inl old ↦ absurd (
          redelivered-ne id b epoch now ops (lookup id ops)
            (sym (ap (λ r. r.0) (received_known ps id b req epoch now ops old)) ∙ h))
      | inr new ↦ (
        ground arith,
        rw (received_new ps id b req epoch now ops new)
            (ap is_some (lookup-insert_self id (new_operation b req epoch now) ops)),
      )
    ]

-- the message of a receipt, then a task
inserted-Starts :
    (set : Setting) (o : Outgoing) (id : String) (budget : Budget) (a b : Agent)
    → contains id a.operations ≡ false
    → contains id b.operations ≡ true
    → Starts id a (
        plain_turn (
          before_turn (emit set o b).0 (
            ok (start_dispatch id budget false (emit set o b).1).0,
            (start_dispatch id budget false (emit set o b).1).1,
          )))
unfolding emit start_dispatch send_new
inserted-Starts set o id budget a b fresh written = record {
  one_started = ground (arith, eq_self id);
  fresh = fresh;
  written = written;
}

-- A turn keeps quiet about `id`, or starts its one task on a new receipt.
abbrev pub Tame : String → Agent → List Effect × Agent → Type 0
Tame id a t = Quiet id a t ⊎ Starts id a t

recorded-Tame :
    (set : Setting) (now : Moment) (r : Received) (request : Request) (id : String) (a b : Agent)
    (inserted : Bool)
    → (r.envelope.message_id == id && not (is_uncertain_native_action request.tool request.input))
      ≡ false
    → (contains id a.operations ≡ true → contains id b.operations ≡ true)
    → (inserted ≡ true
        → (contains r.envelope.message_id a.operations ≡ false)
          × (contains r.envelope.message_id b.operations ≡ true))
    → Tame id a (
        plain_turn (
          before_turn (emit set (receipt_message r.envelope inserted) b).0 (
            after_receipt set now r request inserted
              (emit set (receipt_message r.envelope inserted) b).1)))
unfolding after_receipt
recorded-Tame set now r request id a b false safe kept new = inl (
    before-Quiet set (receipt_message r.envelope false) id a b
      (reconcile set now r request (emit set (receipt_message r.envelope false) b).1) kept
      (reconcile-Quiet set now r request id (emit set (receipt_message r.envelope false) b).1 safe))
recorded-Tame set now r request id a b true safe kept new =
    let budget = budget_from request.deadline_at r.sent_at now not_given in
    let o = receipt_message r.envelope true in
    elim (Bool-cases (r.envelope.message_id == id)) [
      | inl same ↦
          let e = (string_Eq.beq_iff r.envelope.message_id id).0 same in
          let (fresh, written) = new refl in
          inr (
            subst
              (λ j. Starts id a (
                plain_turn (
                  before_turn (emit set o b).0 (
                    ok (start_dispatch j budget false (emit set o b).1).0,
                    (start_dispatch j budget false (emit set o b).1).1,
                  ))))
              (sym e)
              (inserted-Starts set o id budget a b
                (subst (λ j. contains j a.operations ≡ false) e fresh)
                (subst (λ j. contains j b.operations ≡ true) e written)))
      | inr other ↦ inl (
          before-Quiet set o id a b
            (
              ok (start_dispatch r.envelope.message_id budget false (emit set o b).1).0,
              (start_dispatch r.envelope.message_id budget false (emit set o b).1).1,
            )
            kept (other-Quiet id r.envelope.message_id budget false (emit set o b).1 other))
    ]

pub accept_request-Tame :
    (set : Setting) (now : Moment) (r : Received) (request : Request) (id : String) (a : Agent)
    → (r.envelope.message_id == id && not (is_uncertain_native_action request.tool request.input))
      ≡ false
    → Tame id a (plain_turn (accept_request set now r request a))
unfolding accept_request
accept_request-Tame set now r request id a safe =
    let e = r.envelope in
    let b = receipt_of set e request in
    let req : Option Json = some (activity_safe_value set.contracts.casefold (obj request.input)) in
    let recorded =
      record_received set.projects e.message_id b req a.client.epoch set.written_at a.operations in
    let kept =
      received-kept set.projects e.message_id b req a.client.epoch set.written_at id a.operations in
    elim (Result-cases recorded.0) [
      | inr (error, h) ↦ rw (h, accept_request) (inl (record { none_started = refl; kept = kept }))
      | inl (inserted, h) ↦
          rw (h, accept_request)
            (recorded-Tame set now r request id a (record a { operations = recorded.1 }) inserted
              safe kept
              (λ k.
                record_received-fresh set.projects e.message_id b req a.client.epoch set.written_at
                  a.operations (h ∙ ap ok k)))
    ]
