-- ===== src/Patch/Service/Recorded.antt =====
-- The row that a fresh attempt of `apply` leaves.
use codito_mcp.Patch.Service.Holding.{raised-ok, with_ok-ok, holding-ok}
use codito_mcp.Common.{
  String, ◌≡◌, refl, sym, ap, ◌∙◌, inl, inr, false, Option, some, ok, err, nat_Eq, string_Eq,
  Result-cases, ok-injective, Bool-cases, ◌==◌, if-false,
}
use codito_mcp.Errors.{Raises}
use codito_mcp.Models.{succeeded as succeeded_state, state_Eq, state_eq}
use codito_mcp.Db.Json.{Fields}
use codito_mcp.Db.Idempotency.{Rows, Recorded, get_idempotency, put_idempotency, encoded}
use codito_mcp.Db.Idempotency.Journal.{put-get}
use codito_mcp.Patch.Preflight.{Preflight}
use codito_mcp.Patch.Service.Types.{Service, Request, PatchResult, Calls, key_of, registered}
use codito_mcp.Patch.Service.Journals.{answer_of}
use codito_mcp.Patch.Service.Apply.{
  Prepared, result_of, after_commit, apply_preflight, apply_held, apply_fresh, prior_answer,
}

-- the owner of the request reads this result under its key
pub record IsRecorded (r : Request) (digest : String) (result : Fields) (rows : Rows) : Type 0 where
  pub prior : Recorded
  pub found : get_idempotency (key_of r) r.owner rows ≡ ok (some prior)
  pub same : prior.request_digest ≡ digest
  pub answered : answer_of prior ≡ some result

pub answer_of-succeeded :
    (digest : String) (result : Option Fields)
    → answer_of (record { request_digest = digest; state = succeeded_state; result = result })
      ≡ result
unfolding answer_of state_eq
answer_of-succeeded digest result = refl

pub prior_answer-ok :
    (digest : String) (prior : Recorded) (answer : Option Fields)
    → prior_answer digest prior ≡ ok answer
    → (prior.request_digest ≡ digest) × (answer_of prior ≡ answer)
unfolding prior_answer
prior_answer-ok digest prior answer h = elim (Bool-cases (prior.request_digest == digest)) [
  | inr other ↦ absurd (let q = rw (other, prior_answer) at h in cc)
  | inl same ↦ (
    (string_Eq.beq_iff prior.request_digest digest).0 same,
    ok-injective _ _ (rw (same, prior_answer) at h),
  )
]

module _ (c : Calls) (r : Request) (p : Prepared)
    (written : (x : PatchResult) → encoded (some (c.to_json x)) ≡ some (c.to_json x)) where
  after_commit-recorded :
      (pre : Preflight) (m : Raises (Unit {0})) (s t : Service) (result : Fields)
      → after_commit c r p pre m s ≡ (ok result, t)
      → IsRecorded r p.digest result t.rows
  unfolding after_commit
  after_commit-recorded pre (err e) s t result h = raised-ok h
  after_commit-recorded pre (ok _) s t result h =
      let made = c.to_json (result_of c r pre) in
      let stored =
        put_idempotency (registered s) (key_of r) r.owner p.digest succeeded_state (some made) c.now
          s.rows in
      elim (Result-cases stored.0) [
        | inr (e, k) ↦ raised-ok (rw (k, after_commit) at h)
        | inl (_, k) ↦
            let q = rw (k, after_commit) at h in
            let same = ok-injective made result (ap (λ (x : Raises Fields × Service). x.0) q) in
            let rows : stored.1 ≡ t.rows = ap (λ (x : Raises Fields × Service). x.1.rows) q in
            record {
              prior = record {
                request_digest = p.digest;
                state = succeeded_state;
                result = encoded (some made);
              };
              found =
                  ap (get_idempotency (key_of r) r.owner) (sym rows)
                  ∙ put-get (registered s) (key_of r) r.owner p.digest succeeded_state (some made)
                      c.now s.rows k;
              same = refl;
              answered =
                  answer_of-succeeded p.digest (encoded (some made))
                  ∙ written (result_of c r pre)
                  ∙ ap some same;
            }
      ]

  apply_preflight-recorded :
      (pre : Preflight) (s t : Service) (result : Fields)
      → apply_preflight c r p pre s ≡ (ok result, t)
      → IsRecorded r p.digest result t.rows
  unfolding apply_preflight
  apply_preflight-recorded pre s t result h =
      let (_, _, rest) = with_ok-ok _ _ t _ result h in after_commit-recorded pre _ _ t result rest

  pub apply_fresh-recorded :
      (s t : Service) (result : Fields)
      → r.dry_run ≡ false
      → apply_fresh c r p s ≡ (ok result, t)
      → IsRecorded r p.digest result t.rows
  unfolding apply_fresh apply_held
  apply_fresh-recorded s t result real h =
      let (sections, _, held) = with_ok-ok _ s t _ result h in
      let (before, after, body, rows, _) = holding-ok _ _ _ s t result held in
      let (pre, _, done) = with_ok-ok _ before after _ result body in
      let now =
        apply_preflight-recorded pre before after result (if-false r.dry_run _ _ _ real done) in
      record {
        prior = now.prior;
        found = ap (get_idempotency (key_of r) r.owner) rows ∙ now.found;
        same = now.same;
        answered = now.answered;
      }
