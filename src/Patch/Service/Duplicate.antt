-- ===== src/Patch/Service/Duplicate.antt =====
-- `reconcile_duplicate`: what a redelivered patch is answered before its user is asked again.
use codito_mcp.Common.{Option, none, some, ok, err, ◌>>=◌, String}
use codito_mcp.Errors.{Raises, plain, outcome_unknown}
use codito_mcp.Db.Json.{Fields}
use codito_mcp.Db.Idempotency.{Recorded, get_idempotency}
use codito_mcp.Patch.Service.Types.{Service, Request, Calls, key_of, with_ok}
use codito_mcp.Patch.Service.Hashes.{normalize_base_hashes}
use codito_mcp.Patch.Service.Journals.{answer_of, reconcile_incomplete_attempt}
use codito_mcp.Patch.Service.Apply.{enabled_project, prior_answer}

-- the digest of a request for an enabled project
unfoldable pub duplicate_digest : Calls → Request → Service → Raises String
duplicate_digest c r s = do
  hashes ← normalize_base_hashes r.base_hashes
  project ← enabled_project r s
  ok (c.request_digest r.patch hashes r.dry_run r.scope_path)

unfoldable pub recovered_answer : Option Recorded → Raises (Option Fields)
recovered_answer none = ok none
recovered_answer (some prior) = elim (answer_of prior) [
  | some result ↦ ok (some result)
  | none ↦ err (plain outcome_unknown)
]

unfoldable pub reconcile_prior :
    Calls → Request → String → Option Recorded → Service → Raises (Option Fields) × Service
reconcile_prior c r digest none s = (ok none, s)
reconcile_prior c r digest (some prior) s = with_ok (prior_answer digest prior) s (λ answer.
    elim answer [
      | some result ↦ (ok (some result), s)
      | none ↦
          let done = reconcile_incomplete_attempt c r digest s in
          with_ok done.0 done.1 (λ _.
            with_ok (get_idempotency (key_of r) r.owner done.1.rows) done.1
              (λ again. (recovered_answer again, done.1)))
    ])

unfoldable pub reconcile_duplicate : Calls → Request → Service → Raises (Option Fields) × Service
reconcile_duplicate c r s = with_ok (duplicate_digest c r s) s (λ digest.
    with_ok (get_idempotency (key_of r) r.owner s.rows) s
      (λ prior. reconcile_prior c r digest prior s))
