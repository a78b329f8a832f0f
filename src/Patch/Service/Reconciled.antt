-- ===== src/Patch/Service/Reconciled.antt =====
-- What the reconciliation of a request does with its marker and its journal.
use codito_mcp.Patch.Service.Interrupted.{
  before, is_journaled, reconcile_others, reconcile_own, recovered, recover_journal-recovered,
  transaction-recovered,
}
use codito_mcp.Common.{
  ℕ, String, ◌≡◌, refl, sym, ap, ◌∙◌, inl, inr, ◌⊎◌, true, false, Option, none, some, List, [], ok,
  ◌==◌, nat_Eq, string_Eq, option_Eq, list_Eq, Result-cases, Eq, ok-injective,
}
use codito_mcp.Common.Dict.{lookup, insert}
use mathlib.Core.Option.{some-injective}
use mathlib.Core.Path.{subst}
use codito_mcp.Text.{Bytes}
use codito_mcp.Errors.{Raises}
use codito_mcp.Gate.{Gate, empty, reserve, release}
use codito_mcp.Models.{succeeded as succeeded_state, state_Eq, state_eq, Project}
use codito_mcp.Db.Projects.{get_project}
use codito_mcp.Db.Idempotency.{
  Rows, key_eq_iff, owner_eq_iff, Recorded, get_idempotency, put_idempotency, delete_idempotency,
  encoded,
}
use codito_mcp.Db.Idempotency.Journal.{put-get}
use codito_mcp.Patch.Commit.{restore, Record, records}
use codito_mcp.Patch.Recovery.{
  Manifest, ManifestState, Disk, committed, rolled_back, prepared, committing, recover_transaction,
  recover_committed, recover_unfinished,
}
use codito_mcp.Patch.Preflight.{Preflight}
use codito_mcp.Patch.Service.Types.{Service, Request, Calls, key_of, registered, with_ok}
use codito_mcp.Patch.Service.Journals.{
  holding, resource_key_of, after_recovery, reconcile_journals, drop_marker, reconcile_held,
  reconcile_incomplete_attempt, patch_owner,
}
use codito_mcp.Patch.Service.Apply.{Prepared, manifest_of}
use codito_mcp.Patch.Service.Kept.{get-delete}

-- the owner's row under the key of a manifest is gone, or has its result
abbrev pub IsSettled : Manifest → Rows → Type 0
IsSettled m rows =
    (get_idempotency m.key m.owner rows ≡ ok none)
    ⊎ (get_idempotency m.key m.owner rows
        ≡ ok (
            some (record {
              request_digest = m.request_digest;
              state = succeeded_state;
              result = encoded (some m.result);
            })))

module _ {H : Type 0} ⦃e : Eq H⦄ (sha : Bytes → H) where
  committed-IsSettled :
      (ps : List String) (now : ℕ) (m : Manifest) (d : Disk)
      → (recover_committed sha ps now m d).0 ≡ ok tt
      → IsSettled m (recover_committed sha ps now m d).1.rows
  unfolding recover_committed
  committed-IsSettled ps now m d h =
      let stored =
        put_idempotency ps m.key m.owner m.request_digest succeeded_state (some m.result) now
          d.rows in
      elim (Result-cases stored.0) [
        | inr (error, k) ↦ absurd (let q = rw (k, recover_committed) at h in cc)
        | inl (_, k) ↦
            rw (k, recover_committed)
              (inr (
                put-get ps m.key m.owner m.request_digest succeeded_state (some m.result) now d.rows
                  k))
      ]

  unfinished-IsSettled :
      (m : Manifest) (d : Disk)
      → (recover_unfinished sha m d).0 ≡ ok tt
      → IsSettled m (recover_unfinished sha m d).1.rows
  unfolding recover_unfinished
  unfinished-IsSettled m d h = elim (Result-cases (restore sha m.records d.files).0) [
    | inr (error, k) ↦ absurd (let q = rw (k, recover_unfinished) at h in cc)
    | inl (_, k) ↦ rw (k, recover_unfinished) (inl (get-delete m.key m.owner d.rows))
  ]

  recover-IsSettled :
      (ps : List String) (now : ℕ) (m : Manifest) (d : Disk) (state : ManifestState)
      → m.state ≡ state
      → (recover_transaction sha ps now m d).0 ≡ ok tt
      → IsSettled m (recover_transaction sha ps now m d).1.rows
  unfolding recover_transaction
  recover-IsSettled ps now m d committed q h =
      rw (q, recover_transaction)
        (committed-IsSettled ps now m d (rw (q, recover_transaction) at h))
  recover-IsSettled ps now m d rolled_back q h =
      rw (q, recover_transaction) (inl (get-delete m.key m.owner d.rows))
  recover-IsSettled ps now m d prepared q h =
      rw (q, recover_transaction) (unfinished-IsSettled m d (rw (q, recover_transaction) at h))
  recover-IsSettled ps now m d committing q h =
      rw (q, recover_transaction) (unfinished-IsSettled m d (rw (q, recover_transaction) at h))

module _ (c : Calls) (r : Request) (digest : String) where
  -- no journal: the marker of the attempt goes
  pub held-unprepared :
      (s : Service) (prior : Recorded)
      → is_journaled r s.journals ≡ false
      → get_idempotency (key_of r) r.owner s.rows ≡ ok (some prior)
      → (prior.state == succeeded_state) ≡ false
      → reconcile_held c r digest s
        ≡ (ok tt, record s { rows = delete_idempotency (key_of r) s.rows })
  unfolding with_ok drop_marker
  held-unprepared s prior none_own found unfinished =
      rw
        (
          reconcile_others c r digest false s.journals s none_own,
          with_ok,
          found,
          unfinished,
          drop_marker,
        )
        refl

  drop_marker-settled :
      (m : Manifest) (prior : Option Recorded) (s : Service)
      → get_idempotency m.key m.owner s.rows ≡ ok prior
      → IsSettled m s.rows
      → drop_marker r true prior s ≡ (ok tt, s)
  unfolding drop_marker state_eq
  drop_marker-settled m none s found settled = refl
  drop_marker-settled m (some prior) s found (inl gone) = absurd (let q = sym found ∙ gone in cc)
  drop_marker-settled m (some prior) s found (inr kept) =
      let q = some-injective _ _ (ok-injective _ _ (sym found ∙ kept)) in
      rw (ap (λ (x : Recorded). x.state) q, drop_marker) refl

  held-after :
      (s e : Service) (prior : Option Recorded)
      → reconcile_journals c r digest false s.journals s ≡ (ok true, e)
      → get_idempotency (key_of r) r.owner e.rows ≡ ok prior
      → drop_marker r true prior e ≡ (ok tt, e)
      → reconcile_held c r digest s ≡ (ok tt, e)
  unfolding with_ok
  held-after s e prior journals found kept = rw (journals, with_ok, found) kept

  -- the reconciliation holds the gate, which is empty after a restart
  pub attempt-held :
      (s t : Service) (project : Project)
      → get_project r.project_id s.projects ≡ ok project
      → ((held : Gate)
          → reconcile_held c r digest (record s { gate = held })
            ≡ (ok tt, record t { gate = held }))
      → (g : Gate) × (reconcile_incomplete_attempt c r digest (record s { gate = empty })
          ≡ (ok tt, record t { gate = g }))
  unfolding reconcile_incomplete_attempt with_ok holding reserve lookup
  attempt-held s t project known held =
      let k = resource_key_of (key_of r) project.root_fingerprint s.journals in
      let g : Gate = record { owners = insert k (patch_owner r) [] } in
      (release k (patch_owner r) g, rw (known, with_ok, held g) refl)

module _ (c : Calls) (r : Request) (p : Prepared) (pre : Preflight) (s : Service)
    (others : is_journaled r s.journals ≡ false) (new : lookup c.journal_id s.journals ≡ none) where
  -- the manifest of the attempt, in a state
  abbrev pub own : ManifestState → List Record → Manifest
  own state records = record (manifest_of c r p pre s) { state = state; records = records }

  pub held-recovered :
      (state : ManifestState) (rs : List Record) (d : Disk) (held : Gate)
      → d.manifest ≡ some (own state rs)
      → (recovered c s d).0 ≡ ok tt
      → (reconcile_held c r p.digest (before c s d held)
          ≡ (ok tt, after_recovery c.journal_id (recovered c s d).1 (before c s d held)))
        × IsSettled (own state rs) (recovered c s d).1.rows
  held-recovered state rs d held found done =
      let m = own state rs in
      let b = before c s d held in
      let R = recovered c s d in
      let step = recover_journal-recovered c s d m held found in
      let mine =
        reconcile_own c r p.digest c.journal_id m false s.journals b others new
          ((key_eq_iff (key_of r) (key_of r)).1 refl) ((string_Eq.beq_iff p.digest p.digest).1 refl)
          ((owner_eq_iff r.owner r.owner).1 refl) (ap (λ x. x.0) step ∙ done) in
      let e = after_recovery c.journal_id R.1 b in
      let settled : IsSettled m e.rows =
        subst (λ (x : Raises (Unit {0}) × Disk). x.0 ≡ ok tt → IsSettled m x.1.rows)
          (transaction-recovered c s d m held found)
          (recover-IsSettled c.tree.sha (registered s) c.now m d state refl) done in
      let journals : reconcile_journals c r p.digest false b.journals b ≡ (ok true, e) =
        ap
          (λ x.
            reconcile_journals c r p.digest false
              (elim x [ none ↦ s.journals | some k ↦ insert c.journal_id k s.journals ]) b)
          found
        ∙ mine
        ∙ ap (λ (x : Raises (Unit {0}) × Service). (ok true, x.1)) step in
      (
        elim settled [
          | inl gone ↦
              held-after c r p.digest b e none journals gone
                (drop_marker-settled c r p.digest m none e gone (inl gone))
          | inr kept ↦
              held-after c r p.digest b e _ journals kept
                (drop_marker-settled c r p.digest m _ e kept (inr kept))
        ],
        settled,
      )
