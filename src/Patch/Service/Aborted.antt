-- ===== src/Patch/Service/Aborted.antt =====
-- `_commit` where it raises.
use codito_mcp.Common.{
  ◌≡◌, refl, sym, ap, ◌∙◌, inl, inr, Bool, true, false, List, [], ◌∷◌, map, arith, err, ◌==◌, ◌||◌,
  nat_Eq, string_Eq, option_Eq, list_Eq, Option-cases, Result-cases, Bool-cases, any, err-injective,
  ◌>>◌,
}
use codito_mcp.Common.Dict.{lookup, contains, Unique}
use codito_mcp.Text.{Bytes, Text, Bytes}
use codito_mcp.Patch.Service.Holding.{raised-ok, with_ok-err}
use codito_mcp.Errors.{AgentError, Raises}
use codito_mcp.Patch.Preflight.{Preflight}
use codito_mcp.Patch.Commit.{commit, Desired, Files}
use codito_mcp.Patch.Commit.Rollback.{abort-unchanged}
use codito_mcp.Patch.Service.Types.{Service, Request, Calls, with_ok}
use codito_mcp.Patch.Service.Preconditions.{insert_path, sorted, verify_commit_preconditions}
use codito_mcp.Patch.Service.Apply.{Prepared, is_recovery_failed, run_commit, commit_patch}

any-insert_path :
    (f : Text → Bool) (p : Text) (qs : List Text) → any f (insert_path p qs) ≡ (f p || any f qs)
unfolding insert_path
any-insert_path f p [] = refl
any-insert_path f p (q ∷ qs) = ground (arith, any-insert_path f p qs)

any-sorted : (f : Text → Bool) (ps : List Text) → any f (sorted ps) ≡ any f ps
unfolding sorted
any-sorted f [] = refl
any-sorted f (p ∷ ps) = any-insert_path f p (sorted ps) ∙ ap (λ b. f p || b) (any-sorted f ps)

any-contains :
    (q : Text) (ds : Desired) → contains q ds ≡ true → any (λ p. p == q) (map (λ d. d.0) ds) ≡ true
unfolding lookup
any-contains q [] h = absurd (ground arith)
any-contains q ((p, d) ∷ ds) h = elim (Bool-cases (p == q)) [
  | inl same ↦ ground (arith, same)
  | inr other ↦ ground (arith, other, any-contains q ds)
]

-- the paths of a commit are all in its order
pub sorted-covers :
    (ds : Desired) (q : Text)
    → contains q ds ≡ true
    → any (λ p. p == q) (sorted (map (λ d. d.0) ds)) ≡ true
sorted-covers ds q h = any-sorted (λ p. p == q) (map (λ d. d.0) ds) ∙ any-contains q ds h

module _ (c : Calls) (injective : (a b : Bytes) → c.tree.sha a ≡ c.tree.sha b → a ≡ b) where
  -- with no failure that a recovery is for, `_commit`'s loop puts every file back
  commit-undone :
      (ds : Desired) (files : Files) (e : AgentError)
      → Unique ds
      → (commit c.tree.sha c.fault (sorted (map (λ d. d.0) ds)) ds files).0 ≡ err e
      → (q : Text)
      → lookup q (commit c.tree.sha c.fault (sorted (map (λ d. d.0) ds)) ds files).1
        ≡ lookup q files
  unfolding commit
  commit-undone ds files e u h = elim (Option-cases c.fault) [
    | inl quiet ↦ absurd (let q = rw (quiet, commit) at h in cc)
    | inr ((fault, n), k) ↦
        rw (k, commit)
          (abort-unchanged c.tree.sha injective fault n (sorted (map (λ d. d.0) ds)) ds files u
            (sorted-covers ds)).1
  ]

  run_commit-err :
      (r : Request) (p : Prepared) (pre : Preflight) (s t : Service) (e : AgentError)
      → Unique pre.desired
      → is_recovery_failed e ≡ false
      → run_commit c r p pre s ≡ (err e, t)
      → ((q : Text) → lookup q t.files ≡ lookup q s.files) × (t.journals ≡ s.journals)
  unfolding run_commit
  run_commit-err r p pre s t e u whole h =
      let order = sorted (map (λ d. d.0) pre.desired) in
      let made = commit c.tree.sha c.fault order pre.desired s.files in
      elim (Result-cases made.0) [
        | inl (_, k) ↦ raised-ok (sym (rw (k, run_commit) at h))
        | inr (f, k) ↦ elim (Bool-cases (is_recovery_failed f)) [
          | inl broken ↦
              let q =
                ap (λ (x : Raises (Unit {0}) × Service). x.0) (rw (k, broken, run_commit) at h) in
              absurd (let same = ap is_recovery_failed (err-injective f e q) in cc)
          | inr fine ↦
              let q =
                ap (λ (x : Raises (Unit {0}) × Service). x.1) (rw (k, fine, run_commit) at h) in
              (
                λ p.
                    ap (λ (x : Service). lookup p x.files) (sym q)
                    ∙ commit-undone pre.desired s.files f u k p,
                ap (λ (x : Service). x.journals) (sym q),
              )
        ]
      ]

  pub commit_patch-err :
      (r : Request) (p : Prepared) (pre : Preflight) (s : Service) (e : AgentError)
      → Unique pre.desired
      → is_recovery_failed e ≡ false
      → (commit_patch c r p pre s).0 ≡ err e
      → ((q : Text) → lookup q (commit_patch c r p pre s).1.files ≡ lookup q s.files)
        × ((commit_patch c r p pre s).1.journals ≡ s.journals)
  unfolding commit_patch
  commit_patch-err r p pre s e u whole h =
      elim (with_ok-err
        (c.check 3 >> verify_commit_preconditions c.present c.tree.sha pre.changes >> c.check 4) s
        (commit_patch c r p pre s).1 (λ _. run_commit c r p pre s) e
        (ap (λ x. (x, (commit_patch c r p pre s).1)) h)) [
          | inl (_, same) ↦ (
            λ q. ap (λ (x : Service). lookup q x.files) (sym same),
            ap (λ (x : Service). x.journals) (sym same),
          )
          | inr (_, _, k) ↦ run_commit-err r p pre s (commit_patch c r p pre s).1 e u whole k
        ]

run_commit-keeps :
    (c : Calls) (r : Request) (p : Prepared) (pre : Preflight) (s : Service)
    → ((run_commit c r p pre s).1.rows ≡ s.rows)
      × ((run_commit c r p pre s).1.projects ≡ s.projects)
unfolding run_commit
run_commit-keeps c r p pre s =
    let made =
      commit c.tree.sha c.fault (sorted (map (λ d. d.0) pre.desired)) pre.desired s.files in
    elim (Result-cases made.0) [
      | inl (_, k) ↦ rw (k, run_commit) (refl, refl)
      | inr (f, k) ↦ elim (Bool-cases (is_recovery_failed f)) [
        | inl broken ↦ rw (k, broken, run_commit) (refl, refl)
        | inr fine ↦ rw (k, fine, run_commit) (refl, refl)
      ]
    ]

pub commit_patch-keeps :
    (c : Calls) (r : Request) (p : Prepared) (pre : Preflight) (s : Service)
    → ((commit_patch c r p pre s).1.rows ≡ s.rows)
      × ((commit_patch c r p pre s).1.projects ≡ s.projects)
unfolding commit_patch with_ok
commit_patch-keeps c r p pre s =
    elim (Result-cases
      (c.check 3 >> verify_commit_preconditions c.present c.tree.sha pre.changes >> c.check 4)) [
        | inl (_, k) ↦ rw (k, commit_patch, with_ok) (run_commit-keeps c r p pre s)
        | inr (f, k) ↦ rw (k, commit_patch, with_ok) (refl, refl)
      ]
