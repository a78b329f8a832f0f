-- ===== src/Patch/Service/Apply.antt =====
-- `apply`, the entry of a patch into the agent.
use codito_mcp.Common.{
  String, Bool, true, false, not, ◌&&◌, Option, none, some, List, if◌then◌else◌, ok, err, ◌>>=◌,
  ◌>>◌, raise_if, ◌==◌, nat_Eq, string_Eq, option_Eq, leb, length, map,
}
use codito_mcp.Common.Dict.{insert, remove}
use codito_mcp.Text.{Text, codes}
use codito_mcp.Errors.{
  AgentError, Raises, plain, recovery_failed, outcome_unknown, invalid_request,
  idempotency_conflict, project_disabled,
}
use codito_mcp.Models.{Project, running as running_state, succeeded as succeeded_state}
use codito_mcp.Db.Json.{Fields}
use codito_mcp.Db.Projects.{get_project}
use codito_mcp.Db.Idempotency.{Recorded, get_idempotency, put_idempotency, delete_idempotency}
use codito_mcp.Patch.Types.{PatchSection}
use codito_mcp.Patch.Parser.{parse}
use codito_mcp.Patch.Preflight.{Preflight, Hashes, preflight}
use codito_mcp.Patch.Commit.{commit, records}
use codito_mcp.Patch.Recovery.{Manifest, committing, committed}
use codito_mcp.Patch.Service.Types.{
  Service, Request, PatchResult, Calls, key_of, registered, with_ok,
}
use codito_mcp.Patch.Service.Hashes.{normalize_base_hashes}
use codito_mcp.Patch.Service.Preconditions.{sorted, verify_commit_preconditions}
use codito_mcp.Patch.Service.Journals.{
  holding, answer_of, reconcile_incomplete_attempt, patch_owner,
}

-- what `apply` knows before it looks at the table
pub record Prepared : Type 0 where
  pub hashes : Hashes
  pub digest : String
  pub project : Project

-- `scope_path` and `target_project`
unfoldable pub target_of : Calls → Option Text → Option Project → Project → Raises Project
target_of c none target project = ok project
target_of c (some scope) none project = err (plain invalid_request)
target_of c (some scope) (some target) project =
    if c.is_root target.root scope then ok target else err (plain invalid_request)

unfoldable pub enabled_project : Request → Service → Raises Project
enabled_project r s = do
  project ← get_project r.project_id s.projects
  raise_if (not project.enabled) (plain project_disabled)
  ok project

unfoldable pub prepare : Calls → Request → Service → Raises Prepared
prepare c r s = do
  c.check 0
  raise_if
      (not (leb 8 (length (codes r.idempotency_key)) && leb (length (codes r.idempotency_key)) 200))
      (plain invalid_request)
  hashes ← normalize_base_hashes r.base_hashes
  project ← enabled_project r s
  target ← target_of c r.scope_path r.target_project project
  ok (record {
    hashes = hashes;
    digest = c.request_digest r.patch hashes r.dry_run r.scope_path;
    project = target;
  })

-- the result of a finished attempt with the same digest
unfoldable pub prior_answer : String → Recorded → Raises (Option Fields)
prior_answer digest prior =
    if prior.request_digest == digest
    then ok (answer_of prior)
    else err (plain idempotency_conflict)

abbrev pub result_of : Calls → Request → Preflight → PatchResult
result_of c r pre = record {
  project_id = r.project_id;
  idempotency_key = r.idempotency_key;
  dry_run = r.dry_run;
  applied = not r.dry_run;
  files = pre.changes;
  journal_id = if r.dry_run then none else some c.journal_id;
}

abbrev pub manifest_of : Calls → Request → Prepared → Preflight → Service → Manifest
manifest_of c r p pre s = record {
  state = committing;
  records = records (sorted (map (λ d. d.0) pre.desired)) pre.desired s.files;
  key = key_of r;
  owner = r.owner;
  root_fingerprint = p.project.root_fingerprint;
  request_digest = p.digest;
  result = c.to_json (result_of c r pre);
}

unfoldable pub is_recovery_failed : AgentError → Bool
is_recovery_failed e = elim e.code [ recovery_failed ↦ true | _ ↦ false ]

-- `_commit`: what raises before the first change leaves no journal, and a rollback that is complete
-- takes it away; one that is not leaves it for the recovery. No failure but that one has its code.
unfoldable pub run_commit :
    Calls → Request → Prepared → Preflight → Service → Raises (Unit {0}) × Service
run_commit c r p pre s =
    let order = sorted (map (λ d. d.0) pre.desired) in
    let made = commit c.tree.sha c.fault order pre.desired s.files in
    let manifest = manifest_of c r p pre s in
    elim made.0 [
      | ok _ ↦ (
        ok tt,
        record s {
          files = made.1;
          journals = insert c.journal_id (record manifest { state = committed }) s.journals;
        },
      )
      | err e ↦
          if is_recovery_failed e
          then (
            err e,
            record s { files = made.1; journals = insert c.journal_id manifest s.journals },
          )
          else (err e, record s { files = made.1 })
    ]

unfoldable pub commit_patch :
    Calls → Request → Prepared → Preflight → Service → Raises (Unit {0}) × Service
commit_patch c r p pre s =
    with_ok (c.check 3 >> verify_commit_preconditions c.present c.tree.sha pre.changes >> c.check 4)
      s (λ _. run_commit c r p pre s)

-- behind `_commit`: an attempt that raised frees its key, unless its files need a recovery
unfoldable pub after_commit :
    Calls → Request → Prepared → Preflight → Raises (Unit {0}) → Service → Raises Fields × Service
after_commit c r p pre (err e) s = (
  err e,
  if is_recovery_failed e then s else record s { rows = delete_idempotency (key_of r) s.rows },
)
after_commit c r p pre (ok _) s =
    let result = c.to_json (result_of c r pre) in
    let stored =
      put_idempotency (registered s) (key_of r) r.owner p.digest succeeded_state (some result) c.now
        s.rows in
    elim stored.0 [
      | err e ↦ (err e, record s { rows = stored.1 })
      | ok _ ↦ (ok result, record s { rows = stored.1; journals = remove c.journal_id s.journals })
    ]

unfoldable pub apply_preflight :
    Calls → Request → Prepared → Preflight → Service → Raises Fields × Service
apply_preflight c r p pre s =
    let marked =
      put_idempotency (registered s) (key_of r) r.owner p.digest running_state none c.now s.rows in
    with_ok marked.0 (record s { rows = marked.1 })
      (λ _.
        let done = commit_patch c r p pre (record s { rows = marked.1 }) in
        after_commit c r p pre done.0 done.1)

unfoldable pub apply_held :
    Calls → Request → Prepared → List PatchSection → Service → Raises Fields × Service
apply_held c r p sections s =
    with_ok (c.check 1 >> preflight c.tree sections p.hashes >>= λ pre. c.check 2 >> ok pre) s
      (λ pre.
        if r.dry_run then (ok (c.to_json (result_of c r pre)), s) else apply_preflight c r p pre s)

unfoldable pub apply_fresh : Calls → Request → Prepared → Service → Raises Fields × Service
apply_fresh c r p s =
    with_ok (parse r.patch) s
      (λ sections. holding p.project.root_fingerprint (patch_owner r) (apply_held c r p sections) s)

-- behind a recovery of the attempt before
unfoldable pub apply_recovered :
    Calls → Request → Prepared → Option Recorded → Service → Raises Fields × Service
apply_recovered c r p none s = apply_fresh c r p s
apply_recovered c r p (some prior) s = elim (answer_of prior) [
  | some result ↦ (ok result, s)
  | none ↦ (err (plain outcome_unknown), s)
]

-- an attempt before has not finished
unfoldable pub apply_again : Calls → Request → Prepared → Service → Raises Fields × Service
apply_again c r p s =
    if r.reconcile_incomplete
    then (let done = reconcile_incomplete_attempt c r p.digest s in
        with_ok done.0 done.1 (λ _.
          with_ok (get_idempotency (key_of r) r.owner done.1.rows) done.1
            (λ prior. apply_recovered c r p prior done.1)))
    else (err (plain outcome_unknown), s)

unfoldable pub apply_prior :
    Calls → Request → Prepared → Option Recorded → Service → Raises Fields × Service
apply_prior c r p none s = apply_fresh c r p s
apply_prior c r p (some prior) s =
    with_ok (prior_answer p.digest prior) s
      (λ answer. elim answer [ some result ↦ (ok result, s) | none ↦ apply_again c r p s ])

-- `apply`
unfoldable pub apply : Calls → Request → Service → Raises Fields × Service
apply c r s = with_ok (prepare c r s) s (λ p.
    with_ok (get_idempotency (key_of r) r.owner s.rows) s (λ prior. apply_prior c r p prior s))

unfoldable pub service_program : Unit {0}
unfolding apply apply_prior apply_again apply_recovered apply_fresh apply_held apply_preflight
    after_commit commit_patch run_commit is_recovery_failed prior_answer prepare enabled_project
    target_of with_ok answer_of reconcile_incomplete_attempt holding insert remove
    codito_mcp.Common.Dict.lookup codito_mcp.Patch.Service.Hashes.normalize_base_hashes
    codito_mcp.Patch.Service.Hashes.normalize_into codito_mcp.Patch.Service.Hashes.normalize_hash
    codito_mcp.Patch.Service.Hashes.is_hash codito_mcp.Patch.Service.Hashes.is_hex
    codito_mcp.Patch.Service.Hashes.lower codito_mcp.Patch.Service.Hashes.lower_hex
    codito_mcp.Patch.Service.Preconditions.verify_commit_preconditions
    codito_mcp.Patch.Service.Preconditions.conflicts
    codito_mcp.Patch.Service.Preconditions.with_conflict
    codito_mcp.Patch.Service.Preconditions.mismatch
    codito_mcp.Patch.Service.Preconditions.read_mismatch
    codito_mcp.Patch.Service.Preconditions.expected_from
    codito_mcp.Patch.Service.Preconditions.expect_destination
    codito_mcp.Patch.Service.Preconditions.sorted codito_mcp.Patch.Service.Preconditions.insert_path
    codito_mcp.Patch.Service.Journals.resource_key_of
    codito_mcp.Patch.Service.Journals.recover_journal
    codito_mcp.Patch.Service.Journals.reconcile_journals
    codito_mcp.Patch.Service.Journals.drop_marker codito_mcp.Patch.Parser.parser_program
    codito_mcp.Patch.Preflight.preflight_program codito_mcp.Patch.TextFile.encode
    codito_mcp.Gate.reserve codito_mcp.Gate.release get_idempotency put_idempotency
    delete_idempotency codito_mcp.Db.Idempotency.reused codito_mcp.Db.Idempotency.upsert
    codito_mcp.Db.Idempotency.encoded codito_mcp.Db.Idempotency.job_of
    codito_mcp.Db.Idempotency.owner_eq codito_mcp.Db.Operations.references get_project commit
    codito_mcp.Patch.Commit.abort codito_mcp.Patch.Commit.write_first codito_mcp.Patch.Commit.put
    records codito_mcp.Patch.Commit.restore codito_mcp.Patch.Commit.restore_from_last
    codito_mcp.Patch.Commit.restore_one codito_mcp.Text.text_before codito_mcp.Common.list_beq
    codito_mcp.Patch.Recovery.recover_transaction codito_mcp.Patch.Recovery.recover_unfinished
    codito_mcp.Patch.Recovery.recover_committed codito_mcp.Models.state_eq
    codito_mcp.Db.Idempotency.key_eq codito_mcp.Db.Projects.project_of
    codito_mcp.Patch.TextFile.text_of
service_program = tt
