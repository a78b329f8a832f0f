-- ===== src/Patch/Service/Crashed.antt =====
-- `_reconcile_incomplete_attempt` on what a crash of `apply` leaves.
use codito_mcp.Patch.Service.Reconciled.{
  IsSettled, own, held-unprepared, attempt-held, held-recovered,
}
use codito_mcp.Patch.Service.Interrupted.{
  restarted, before, is_journaled, recovered, journals-recovered,
}
use codito_mcp.Common.{
  ℕ, ◌≡◌, refl, sym, ap, ◌∙◌, inl, inr, ◌⊎◌, false, none, some, List, map, ok, nat_Eq, string_Eq,
  option_Eq, list_Eq, length, ok-injective,
}
use codito_mcp.Common.Dict.{lookup, Unique}
use mathlib.Core.Option.{some-injective}
use mathlib.Core.Path.{subst}
use codito_mcp.Text.{Bytes}
use codito_mcp.Errors.{Raises}
use codito_mcp.Gate.{Gate, empty}
use codito_mcp.Models.{
  succeeded as succeeded_state, running as running_state, state_Eq, state_eq, Project,
}
use codito_mcp.Db.Projects.{get_project}
use codito_mcp.Db.Idempotency.{
  Rows, Recorded, get_idempotency, put_idempotency, delete_idempotency, encoded,
}
use codito_mcp.Db.Idempotency.Journal.{put-get, put-again}
use codito_mcp.Patch.Commit.{write_first, Record}
use codito_mcp.Patch.Recovery.{
  ManifestState, Disk, Point, committed, rolled_back, prepared, committing, unprepared, ready,
  writing, undoing, undone, finished, disk_at,
}
use codito_mcp.Patch.Recovery.Atomic.{recover-atomic}
use codito_mcp.Patch.Preflight.{Preflight}
use codito_mcp.Patch.Service.Types.{Service, Request, Calls, key_of, registered}
use codito_mcp.Patch.Service.Preconditions.{sorted}
use codito_mcp.Patch.Service.Journals.{after_recovery, reconcile_incomplete_attempt}
use codito_mcp.Patch.Service.Apply.{Prepared, manifest_of, result_of}
use codito_mcp.Patch.Service.Kept.{get-delete}
use codito_mcp.Patch.Service.Aborted.{sorted-covers}
use codito_mcp.Patch.Service.Undone.{IsUndone}

-- the change is there, and the owner of its key reads its result
pub record IsApplied (c : Calls) (r : Request) (p : Prepared) (pre : Preflight) (s t : Service)
    : Type 0 where
  pub files : t.files ≡ write_first (length pre.desired) pre.desired s.files
  pub journals : t.journals ≡ s.journals
  pub recorded :
      get_idempotency (key_of r) r.owner t.rows
      ≡ ok (
          some (record {
            request_digest = p.digest;
            state = succeeded_state;
            result = encoded (some (c.to_json (result_of c r pre)));
          }))

-- the rows behind the marker of an attempt
abbrev pub marked : Calls → Request → Prepared → ℕ → Service → Raises (Unit {0}) × Rows
marked c r p began s =
    put_idempotency (registered s) (key_of r) r.owner p.digest running_state none began s.rows

-- what a crash finds at a point of the commit
abbrev pub crashed : Calls → Request → Prepared → Preflight → ℕ → Service → Point → Disk
crashed c r p pre began s point =
    disk_at c.tree.sha (sorted (map (λ d. d.0) pre.desired)) pre.desired (manifest_of c r p pre s)
      (record { files = s.files; manifest = none; rows = (marked c r p began s).1 }) point

-- a point has its manifest, or is before any change
crashed-own :
    (c : Calls) (r : Request) (p : Prepared) (pre : Preflight) (began : ℕ) (s : Service)
    (point : Point)
    → (crashed c r p pre began s point
        ≡ record { files = s.files; manifest = none; rows = (marked c r p began s).1 })
      ⊎ ((state : ManifestState) × (rs : List Record) × ((crashed c r p pre began s point).manifest
            ≡ some (record (manifest_of c r p pre s) { state = state; records = rs })))
unfolding disk_at
crashed-own c r p pre began s unprepared = inl refl
crashed-own c r p pre began s ready = inr (prepared, _, refl)
crashed-own c r p pre began s (writing n) = inr (committing, _, refl)
crashed-own c r p pre began s (undoing n k) = inr (committing, _, refl)
crashed-own c r p pre began s (undone n) = inr (rolled_back, _, refl)
crashed-own c r p pre began s finished = inr (committed, _, refl)

-- the table and the disk of a crash do not touch one another before the commit is done
pub crashed-rows :
    (c : Calls) (r : Request) (p : Prepared) (pre : Preflight) (began : ℕ) (s : Service)
    (point : Point)
    → (crashed c r p pre began s point).rows ≡ (marked c r p began s).1
unfolding disk_at
crashed-rows c r p pre began s unprepared = refl
crashed-rows c r p pre began s ready = refl
crashed-rows c r p pre began s (writing n) = refl
crashed-rows c r p pre began s (undoing n k) = refl
crashed-rows c r p pre began s (undone n) = refl
crashed-rows c r p pre began s finished = refl

module _ (c : Calls) (r : Request) (p : Prepared) (pre : Preflight) (began : ℕ) (s : Service)
    (project : Project) (known : get_project r.project_id s.projects ≡ ok project)
    (taken : (marked c r p began s).0 ≡ ok tt) (others : is_journaled r s.journals ≡ false)
    (new : lookup c.journal_id s.journals ≡ none) where
  abbrev pub Settles : Disk → Type 0
  Settles d =
      (t : Service) × (reconcile_incomplete_attempt c r p.digest (restarted c s d) ≡ (ok tt, t))
      × (IsUndone r s t ⊎ IsApplied c r p pre s t)

  -- the marker, as it is read
  pub marked-running :
      get_idempotency (key_of r) r.owner (marked c r p began s).1
      ≡ ok (
          some (record { request_digest = p.digest; state = running_state; result = encoded none }))
  marked-running =
      put-get (registered s) (key_of r) r.owner p.digest running_state none began s.rows taken

  unprepared-Settles :
      Settles (record { files = s.files; manifest = none; rows = (marked c r p began s).1 })
  unfolding state_eq
  unprepared-Settles =
      let d : Disk = record { files = s.files; manifest = none; rows = (marked c r p began s).1 } in
      let t : Service = record (restarted c s d) {
        rows = delete_idempotency (key_of r) (marked c r p began s).1;
      } in
      let (g, e) =
        attempt-held c r p.digest (restarted c s d) t project known
          (λ held. held-unprepared c r p.digest (before c s d held) _ others marked-running refl) in
      (
        record t { gate = g },
        e,
        inl (record {
          files = λ q. refl;
          journals = refl;
          free = get-delete (key_of r) r.owner (marked c r p began s).1;
        }),
      )

  settled-free :
      (state : ManifestState) (rs : List Record) (rows : Rows)
      → IsSettled (record (manifest_of c r p pre s) { state = state; records = rs }) rows
      → (rows ≡ (marked c r p began s).1)
        ⊎ (rows ≡ delete_idempotency (key_of r) (marked c r p began s).1)
      → get_idempotency (key_of r) r.owner rows ≡ ok none
  settled-free state rs rows settled (inr gone) =
      ap (get_idempotency (key_of r) r.owner) gone
      ∙ get-delete (key_of r) r.owner (marked c r p began s).1
  settled-free state rs rows (inl free) (inl same) = free
  settled-free state rs rows (inr kept) (inl same) = absurd (
      let q = some-injective _ _ (
        ok-injective _ _
          (sym marked-running ∙ ap (get_idempotency (key_of r) r.owner) (sym same) ∙ kept)) in
      let e : ◌≡◌ running_state succeeded_state = ap (λ (x : Recorded). x.state) q in cc)

  ended-Settles :
      (point : Point) (state : ManifestState) (rs : List Record)
      → (crashed c r p pre began s point).manifest
        ≡ some (record (manifest_of c r p pre s) { state = state; records = rs })
      → (recovered c s (crashed c r p pre began s point)).0 ≡ ok tt
      → ((g : Gate)
          → let d = crashed c r p pre began s point in
            let t = after_recovery c.journal_id (recovered c s d).1 (restarted c s d) in
            IsUndone r s (record t { gate = g }) ⊎ IsApplied c r p pre s (record t { gate = g }))
      → Settles (crashed c r p pre began s point)
  ended-Settles point state rs found done outcome =
      let d = crashed c r p pre began s point in
      let t = after_recovery c.journal_id (recovered c s d).1 (restarted c s d) in
      let (g, e) =
        attempt-held c r p.digest (restarted c s d) t project known
          (λ held. (held-recovered c r p pre s others new state rs d held found done).0) in
      (record t { gate = g }, e, outcome g)

  found-Settles :
      (injective : (a b : Bytes) → c.tree.sha a ≡ c.tree.sha b → a ≡ b) (point : Point)
      (state : ManifestState) (rs : List Record)
      → Unique pre.desired
      → (crashed c r p pre began s point).manifest
        ≡ some (record (manifest_of c r p pre s) { state = state; records = rs })
      → Settles (crashed c r p pre began s point)
  found-Settles injective point state rs u found =
      let d = crashed c r p pre began s point in
      let R = recovered c s d in
      let m = own c r p pre s others new state rs in
      let stored =
        put-again (registered s) (key_of r) r.owner p.digest running_state succeeded_state none
          (some (c.to_json (result_of c r pre))) began c.now s.rows taken in
      elim (recover-atomic c.tree.sha injective (registered s) c.now
        (sorted (map (λ d. d.0) pre.desired)) pre.desired (manifest_of c r p pre s)
        (record { files = s.files; manifest = none; rows = (marked c r p began s).1 }) point u
        (sorted-covers pre.desired) stored) [
          | inl (done, gone, files, rows) ↦ ended-Settles point state rs found done (λ g.
              inl (record {
                files = files;
                journals = journals-recovered c s d m empty found new gone;
                free =
                    settled-free state rs R.1.rows
                      (held-recovered c r p pre s others new state rs d empty found done).1 rows;
              }))
          | inr (done, gone, files, reads) ↦ ended-Settles point state rs found done (λ g.
              inr (record {
                files = files;
                journals = journals-recovered c s d m empty found new gone;
                recorded = reads;
              }))
        ]

  -- wherever the crash met the attempt, its reconciliation settles it
  pub crashed-Settles :
      ((a b : Bytes) → c.tree.sha a ≡ c.tree.sha b → a ≡ b)
      → Unique pre.desired
      → (point : Point) → Settles (crashed c r p pre began s point)
  crashed-Settles injective u point = elim (crashed-own c r p pre began s point) [
    | inl same ↦ subst Settles (sym same) unprepared-Settles
    | inr (state, rs, found) ↦ found-Settles injective point state rs u found
  ]
