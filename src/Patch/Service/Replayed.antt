-- ===== src/Patch/Service/Replayed.antt =====
-- `apply` of a request that was answered before.
use codito_mcp.Patch.Service.Recorded.{apply_fresh-recorded, IsRecorded, prior_answer-ok}
use codito_mcp.Patch.Service.Holding.{raised-ok, with_ok-ok}
use codito_mcp.Patch.Service.Kept.{IsOf, found-IsOf, reconcile-IsKept}
use codito_mcp.Patch.Service.Journals.{reconcile_incomplete_attempt}
use mathlib.Core.Option.{none}
use mathlib.Core.Path.{subst}
use codito_mcp.Common.{
  ◌≡◌, refl, sym, ap, ◌∙◌, inl, inr, false, Option, some, ok, nat_Eq, string_Eq, ok-injective,
  eq_self, Bool-cases, Option-cases, if-false, if-true,
}
use codito_mcp.Errors.{Raises}
use codito_mcp.Db.Json.{Fields}
use codito_mcp.Db.Idempotency.{Recorded, get_idempotency, encoded}
use codito_mcp.Patch.Service.Types.{Service, Request, PatchResult, Calls, key_of, with_ok}
use codito_mcp.Patch.Service.Journals.{answer_of}
use codito_mcp.Patch.Service.Apply.{
  Prepared, apply_prior, prior_answer, apply_again, apply, prepare, apply_recovered,
}

module _ (c : Calls) (r : Request) (p : Prepared)
    (written : (x : PatchResult) → encoded (some (c.to_json x)) ≡ some (c.to_json x)) where
  answered :
      (prior : Recorded) (s t : Service) (answer result : Fields)
      → get_idempotency (key_of r) r.owner s.rows ≡ ok (some prior)
      → prior.request_digest ≡ p.digest
      → answer_of prior ≡ some answer
      → ◌≡◌ {A = Raises Fields × Service} (ok answer, s) (ok result, t)
      → IsRecorded r p.digest result t.rows
  answered prior s t answer result found same k h = record {
    prior = prior;
    found =
        ap (λ (x : Raises Fields × Service). get_idempotency (key_of r) r.owner x.1.rows) (sym h)
        ∙ found;
    same = same;
    answered =
        k ∙ ap some (ok-injective answer result (ap (λ (x : Raises Fields × Service). x.0) h));
  }

  apply_recovered-recorded :
      (prior : Option Recorded) (s t : Service) (result : Fields)
      → r.dry_run ≡ false
      → get_idempotency (key_of r) r.owner s.rows ≡ ok prior
      → IsOf (key_of r) r.owner p.digest s.rows
      → apply_recovered c r p prior s ≡ (ok result, t)
      → IsRecorded r p.digest result t.rows
  unfolding apply_recovered
  apply_recovered-recorded none s t result real found kept h =
      apply_fresh-recorded c r p written s t result real h
  apply_recovered-recorded (some prior) s t result real found kept h =
      elim (Option-cases (answer_of prior)) [
        | inl nothing ↦ raised-ok (rw (nothing, apply_recovered) at h)
        | inr (answer, k) ↦
            let q = rw (k, apply_recovered) at h in
            answered prior s t answer result found (kept prior found) k q
      ]

  apply_again-recorded :
      (s t : Service) (result : Fields)
      → r.dry_run ≡ false
      → IsOf (key_of r) r.owner p.digest s.rows
      → apply_again c r p s ≡ (ok result, t)
      → IsRecorded r p.digest result t.rows
  unfolding apply_again
  apply_again-recorded s t result real kept h = elim (Bool-cases r.reconcile_incomplete) [
    | inr wrong ↦ absurd (
        let q = if-false r.reconcile_incomplete _ _ _ wrong h in
        let q2 = ap (λ (x : Raises Fields × Service). x.0) q in cc)
    | inl tried ↦
        let q = if-true r.reconcile_incomplete _ _ _ tried h in
        let done = reconcile_incomplete_attempt c r p.digest s in
        let (_, recovered, rest) = with_ok-ok done.0 done.1 t _ result q in
        let (prior, found, last) =
          with_ok-ok (get_idempotency (key_of r) r.owner done.1.rows) done.1 t _ result rest in
        apply_recovered-recorded prior done.1 t result real found
          (reconcile-IsKept c r p.digest s done.1 kept (ap (λ x. (x, done.1)) recovered)) last
  ]

  apply_prior-recorded :
      (prior : Option Recorded) (s t : Service) (result : Fields)
      → r.dry_run ≡ false
      → get_idempotency (key_of r) r.owner s.rows ≡ ok prior
      → apply_prior c r p prior s ≡ (ok result, t)
      → IsRecorded r p.digest result t.rows
  unfolding apply_prior prior_answer
  apply_prior-recorded none s t result real found h =
      apply_fresh-recorded c r p written s t result real h
  apply_prior-recorded (some prior) s t result real found h =
      let (answer, given, rest) = with_ok-ok (prior_answer p.digest prior) s t _ result h in
      let (same, e) = prior_answer-ok p.digest prior answer given in
      elim (Option-cases answer) [
        | inl nothing ↦
            apply_again-recorded s t result real
              (found-IsOf (key_of r) r.owner p.digest s.rows prior found same) (rw nothing at rest)
        | inr (value, k) ↦ answered prior s t value result found same (e ∙ k) (rw k at rest)
      ]

  -- what a real attempt answers is in the table, under its key
  apply-recorded :
      (s t : Service) (result : Fields)
      → r.dry_run ≡ false
      → prepare c r s ≡ ok p
      → apply c r s ≡ (ok result, t)
      → IsRecorded r p.digest result t.rows
  unfolding apply
  apply-recorded s t result real prepared h =
      let (other, e, looked) = with_ok-ok (prepare c r s) s t _ result h in
      let q =
        subst
          (λ x.
            with_ok (get_idempotency (key_of r) r.owner s.rows) s
              (λ prior. apply_prior c r x prior s)
            ≡ (ok result, t))
          (ok-injective other p (sym e ∙ prepared)) looked in
      let (prior, found, rest) = with_ok-ok _ s t _ result q in
      apply_prior-recorded prior s t result real found rest

pub apply-of_recorded :
    (c : Calls) (r : Request) (p : Prepared) (result : Fields) (t : Service)
    → prepare c r t ≡ ok p
    → IsRecorded r p.digest result t.rows
    → apply c r t ≡ (ok result, t)
unfolding apply apply_prior prior_answer with_ok
apply-of_recorded c r p result t prepared recorded =
    rw
      (
        prepared,
        recorded.found,
        recorded.answered,
        recorded.same,
        eq_self p.digest,
        apply,
        with_ok,
        apply_prior,
        prior_answer,
      )
      refl

-- A patch that was applied is not applied again. After a call that is no dry run has answered, another
-- call of the same request, with the same digest of its parts, answers the same and changes nothing:
-- neither the files nor the table, the journals or the gate. It may meet other files and another time.
-- No result's JSON is empty.
pub apply_replayed :
    (c again : Calls) (r : Request) (p replayed : Prepared) (result : Fields) (s t : Service)
    → ((x : PatchResult) → encoded (some (c.to_json x)) ≡ some (c.to_json x))
    → r.dry_run ≡ false
    → prepare c r s ≡ ok p
    → apply c r s ≡ (ok result, t)
    → prepare again r t ≡ ok replayed
    → replayed.digest ≡ p.digest
    → apply again r t ≡ (ok result, t)
apply_replayed c again r p replayed result s t written real prepared h later same =
    let recorded = apply-recorded c r p written s t result real prepared h in
    apply-of_recorded again r replayed result t later
      (subst (λ d. IsRecorded r d result t.rows) (sym same) recorded)
