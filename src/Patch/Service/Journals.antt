-- ===== src/Patch/Service/Journals.antt =====
-- `_reconcile_incomplete_attempt`: the journals of one request are recovered before it is tried again.
use Prim.Native.String.{◌++◌ as append_text}
use codito_mcp.Common.{
  String, Bool, true, false, not, ◌||◌, Option, none, some, List, [], ◌∷◌, if◌then◌else◌, ok, err,
  ◌==◌, nat_Eq, string_Eq, option_Eq, ◌>>=◌,
}
use codito_mcp.Common.Dict.{insert, remove}
use codito_mcp.Errors.{Raises, plain, recovery_failed}
use codito_mcp.Models.{succeeded as succeeded_state, state_Eq}
use codito_mcp.Gate.{reserve, release}
use codito_mcp.Db.Json.{Fields}
use codito_mcp.Db.Projects.{get_project}
use codito_mcp.Db.Idempotency.{Key, key_eq, owner_eq, Recorded, get_idempotency, delete_idempotency}
use codito_mcp.Patch.Recovery.{Manifest, Disk, recover_transaction}
use codito_mcp.Patch.Service.Types.{Service, Request, Calls, key_of, registered, with_ok}

-- `with self.operation_gate.hold(...)`; the lock on the root never changes an answer here
unfoldable pub holding {ℓ} :
    {A : Type ℓ} → String → String → (Service → Raises A × Service) → Service → Raises A × Service
holding resource_key owner body s = elim (reserve resource_key owner s.gate) [
  | err e ↦ (err e, s)
  | ok held ↦
      let done = body (record s { gate = held }) in
      (done.0, record done.1 { gate = release resource_key owner done.1.gate })
]

-- the root of a journal of the request, or of its project
unfoldable pub resource_key_of : Key → String → List (String × Manifest) → String
resource_key_of key own [] = own
resource_key_of key own ((id, m) ∷ journals) =
    let rest = resource_key_of key own journals in
    if key_eq m.key key then m.root_fingerprint else rest

-- what a journal's recovery leaves of the service
abbrev pub after_recovery : String → Disk → Service → Service
after_recovery id d s = record s {
  files = d.files;
  rows = d.rows;
  journals = elim d.manifest [ none ↦ remove id s.journals | some m ↦ insert id m s.journals ];
}

unfoldable pub recover_journal : Calls → String → Manifest → Service → Raises (Unit {0}) × Service
recover_journal c id m s =
    let disk : Disk = record { files = s.files; manifest = some m; rows = s.rows } in
    let done = recover_transaction c.tree.sha (registered s) c.now m disk in
    (done.0, after_recovery id done.1 s)

-- `recover`, of the transactions that are there: the ids of those that were recovered
unfoldable pub recover_all :
    Calls → List (String × Manifest) → Service → Raises (List String) × Service
recover_all c [] s = (ok [], s)
recover_all c ((id, m) ∷ journals) s =
    let done = recover_journal c id m s in
    elim done.0 [
      | err e ↦ (err (plain recovery_failed), done.1)
      | ok _ ↦ let rest = recover_all c journals done.1 in (rest.0 >>= λ ids. ok (id ∷ ids), rest.1)
    ]

-- The journals that name the request, one after another; whether there was one.
unfoldable pub reconcile_journals :
    Calls → Request → String → Bool → List (String × Manifest) → Service → Raises Bool × Service
reconcile_journals c r digest matched [] s = (ok matched, s)
reconcile_journals c r digest matched ((id, m) ∷ journals) s =
    if not (key_eq m.key (key_of r))
    then reconcile_journals c r digest matched journals s
    else if not (m.request_digest == digest) || not (owner_eq m.owner r.owner)
    then (err (plain recovery_failed), s)
    else (let done = recover_journal c id m s in
        with_ok done.0 done.1 (λ _. reconcile_journals c r digest true journals done.1))

-- `prior["state"] == SUCCEEDED and prior["result"] is not None`
unfoldable pub answer_of : Recorded → Option Fields
answer_of prior = if prior.state == succeeded_state then prior.result else none

-- an attempt that left no manifest changed no file: its marker goes
unfoldable pub drop_marker :
    Request → Bool → Option Recorded → Service → Raises (Unit {0}) × Service
drop_marker r matched none s = (ok tt, s)
drop_marker r matched (some prior) s =
    if prior.state == succeeded_state
    then (ok tt, s)
    else if matched
    then (err (plain recovery_failed), s)
    else (ok tt, record s { rows = delete_idempotency (key_of r) s.rows })

abbrev pub reconcile_held : Calls → Request → String → Service → Raises (Unit {0}) × Service
reconcile_held c r digest s =
    let done = reconcile_journals c r digest false s.journals s in
    with_ok done.0 done.1 (λ matched.
      with_ok (get_idempotency (key_of r) r.owner done.1.rows) done.1
        (λ prior. drop_marker r matched prior done.1))

-- the owner on the gate
abbrev pub patch_owner : Request → String
patch_owner r = append_text "patch:" r.idempotency_key

unfoldable pub reconcile_incomplete_attempt :
    Calls → Request → String → Service → Raises (Unit {0}) × Service
reconcile_incomplete_attempt c r digest s =
    with_ok (get_project r.project_id s.projects) s (λ project.
      holding (resource_key_of (key_of r) project.root_fingerprint s.journals) (patch_owner r)
        (reconcile_held c r digest) s)
