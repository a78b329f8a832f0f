-- ===== src/Patch/Service/Redelivered.antt =====
-- `apply` of a request that a crash interrupted.
use codito_mcp.Patch.Service.Crashed.{
  IsApplied, marked, crashed, crashed-rows, crashed-Settles, marked-running,
}
use codito_mcp.Patch.Service.Interrupted.{restarted, is_journaled}
use codito_mcp.Common.{
  ℕ, String, ◌≡◌, refl, ap, ◌∙◌, inl, inr, ◌⊎◌, true, false, Option, none, some, if◌then◌else◌, ok,
  err, nat_Eq, string_Eq, option_Eq, list_Eq, eq_self,
}
use codito_mcp.Common.Dict.{lookup, Unique}
use codito_mcp.Text.{Bytes}
use codito_mcp.Models.{running as running_state, state_Eq, state_eq, Project}
use codito_mcp.Db.Projects.{get_project}
use codito_mcp.Db.Json.{Fields}
use codito_mcp.Db.Idempotency.{Recorded, get_idempotency, encoded}
use codito_mcp.Patch.Recovery.{Point}
use codito_mcp.Patch.Preflight.{Preflight}
use codito_mcp.Patch.Service.Types.{Service, Request, Calls, key_of, with_ok}
use codito_mcp.Patch.Service.Journals.{reconcile_incomplete_attempt}
use codito_mcp.Patch.Service.Apply.{
  prepare, enabled_project, apply, apply_fresh, apply_again, apply_prior, apply_recovered,
  prior_answer, Prepared, result_of,
}
use codito_mcp.Patch.Service.Recorded.{answer_of-succeeded}
use codito_mcp.Errors.{plain, outcome_unknown as unknown}
use codito_mcp.Patch.Service.Journals.{answer_of}
use codito_mcp.Patch.Service.Undone.{IsUndone}

answer_of-running :
    (digest : String) (result : Option Fields)
    → answer_of (record { request_digest = digest; state = running_state; result = result }) ≡ none
unfolding answer_of state_eq
answer_of-running digest result = refl

-- an attempt that is settled is gone on with
module _ (c : Calls) (r : Request) (p : Prepared) where
  apply_again-settled :
      (b t : Service) (next : Option Recorded)
      → r.reconcile_incomplete ≡ true
      → reconcile_incomplete_attempt c r p.digest b ≡ (ok tt, t)
      → get_idempotency (key_of r) r.owner t.rows ≡ ok next
      → apply_again c r p b ≡ apply_recovered c r p next t
  unfolding apply_again with_ok
  apply_again-settled b t next wanted settled found =
      let done = reconcile_incomplete_attempt c r p.digest b in
      ap
        (λ q.
          if q
          then with_ok done.0 done.1 (λ _.
            with_ok (get_idempotency (key_of r) r.owner done.1.rows) done.1
              (λ prior. apply_recovered c r p prior done.1))
          else (err (plain unknown), b))
        wanted
      ∙ rw (settled, with_ok, found) refl

  resumed_as :
      (b t : Service) (prior : Recorded)
      → prepare c r b ≡ ok p
      → get_idempotency (key_of r) r.owner b.rows ≡ ok (some prior)
      → prior.request_digest ≡ p.digest
      → answer_of prior ≡ none
      → r.reconcile_incomplete ≡ true
      → reconcile_incomplete_attempt c r p.digest b ≡ (ok tt, t)
      → (next : Option Recorded) → get_idempotency (key_of r) r.owner t.rows ≡ ok next
      → apply c r b ≡ apply_recovered c r p next t
  unfolding apply apply_prior prior_answer with_ok answer_of apply_recovered
  resumed_as b t prior checked found same silent wanted settled next then_found =
      rw (checked, found, apply, with_ok, same, eq_self p.digest, silent, apply_prior, prior_answer)
        (apply_again-settled b t next wanted settled then_found)

  apply_recovered-answer :
      (prior : Recorded) (result : Fields) (t : Service)
      → answer_of prior ≡ some result
      → apply_recovered c r p (some prior) t ≡ (ok result, t)
  unfolding apply_recovered
  apply_recovered-answer prior result t h = rw (h, apply_recovered) refl

-- A patch that a crash interrupts at any point of its commit, and that is sent again with
-- `reconcile_incomplete`, is applied at most once: the agent either finds the whole change there and
-- answers with its result, changing nothing more, or begins afresh, with every file as it was before
-- and the key free. The crash came behind the request's marker; no other journal is of the request;
-- contents differ in their digests; the desired paths are distinct; no result's JSON is empty.
pub apply_redelivered :
    (c : Calls) (r : Request) (p : Prepared) (pre : Preflight) (began : ℕ) (s : Service)
    (project : Project) (point : Point)
    → get_project r.project_id s.projects ≡ ok project
    → (marked c r p began s).0 ≡ ok tt
    → is_journaled r s.journals ≡ false
    → lookup c.journal_id s.journals ≡ none
    → ((a b : Bytes) → c.tree.sha a ≡ c.tree.sha b → a ≡ b)
    → Unique pre.desired
    → encoded (some (c.to_json (result_of c r pre))) ≡ some (c.to_json (result_of c r pre))
    → r.reconcile_incomplete ≡ true
    → prepare c r s ≡ ok p
    → (t : Service) × ((IsApplied c r p pre s t
          × (apply c r (restarted c s (crashed c r p pre began s point))
              ≡ (ok (c.to_json (result_of c r pre)), t)))
        ⊎ (IsUndone r s t
            × (apply c r (restarted c s (crashed c r p pre began s point)) ≡ apply_fresh c r p t)))
unfolding prepare enabled_project apply_recovered
apply_redelivered c r p pre began s project point known taken others new injective u written wanted
      checked =
    let d = crashed c r p pre began s point in
    let b = restarted c s d in
    let (t, settled, outcome) =
      crashed-Settles c r p pre began s project known taken others new injective u point in
    let running =
      ap (get_idempotency (key_of r) r.owner) (crashed-rows c r p pre began s point)
      ∙ marked-running c r p pre began s project known taken others new in
    let resumed =
      resumed_as c r p b t _ checked running refl (answer_of-running p.digest _) wanted settled in
    (
      t,
      elim outcome [
        | inl before_it ↦ inr (before_it, resumed none before_it.free)
        | inr applied ↦ inl (
          applied,
          resumed _ applied.recorded
              ∙ apply_recovered-answer c r p _ _ t (answer_of-succeeded p.digest _ ∙ written),
        )
      ],
    )
