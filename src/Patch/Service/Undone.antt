-- ===== src/Patch/Service/Undone.antt =====
-- `apply` where its first attempt raises.
use codito_mcp.Patch.Service.Holding.{raised-ok, with_ok-err, holding-err}
use codito_mcp.Patch.Service.Apply.{result_of}
use codito_mcp.Patch.Service.Aborted.{commit_patch-err, commit_patch-keeps}
use codito_mcp.Db.Projects.{Projects}
use codito_mcp.Patch.Service.Kept.{get-delete}
use codito_mcp.Common.{
  >>=-eq-ok, ◌>>=◌, ◌>>◌, ℕ, String, ◌≡◌, refl, sym, ap, ◌∙◌, inl, inr, false, Option, none, some,
  List, map, arith, ok, err, nat_Eq, string_Eq, option_Eq, list_Eq, Result-cases, Bool-cases,
  ok-injective, err-injective, ◌>>◌, ◌≢◌, if-true, if-false,
}
use mathlib.Core.Path.{subst}
use codito_mcp.Common.Dict.{lookup, Unique}
use codito_mcp.Text.{Bytes, Text, Bytes}
use codito_mcp.Errors.{AgentError, Raises}
use codito_mcp.Models.{succeeded as succeeded_state, running as running_state, OperationState}
use codito_mcp.Db.Json.{Fields}
use codito_mcp.Db.Idempotency.{
  Rows, get_idempotency, put_idempotency, delete_idempotency, Key, Owner,
}
use codito_mcp.Db.Idempotency.Journal.{put-again}
use codito_mcp.Db.Projects.{Projects}
use codito_mcp.Patch.Types.{PatchSection}
use codito_mcp.Patch.Parser.{parse}
use codito_mcp.Patch.Preflight.{Preflight, preflight}
use codito_mcp.Patch.Preflight.Based.{preflight-Unique}
use codito_mcp.Patch.Service.Types.{Service, Request, Calls, key_of, registered}
use codito_mcp.Patch.Service.Journals.{patch_owner}
use codito_mcp.Patch.Service.Apply.{
  Prepared, prepare, is_recovery_failed, commit_patch, after_commit, apply_preflight, apply_held,
  apply_fresh, apply_prior, apply,
}

-- as it was: the files, the journals, and a key that is free
pub record IsUndone (r : Request) (s t : Service) : Type 0 where
  pub files : (q : Text) → lookup q t.files ≡ lookup q s.files
  pub journals : t.journals ≡ s.journals
  pub free : get_idempotency (key_of r) r.owner t.rows ≡ ok none

abbrev IsFree : Request → Service → Type 0
IsFree r s = get_idempotency (key_of r) r.owner s.rows ≡ ok none

unmoved-IsUndone : (r : Request) (s t : Service) → IsFree r s → s ≡ t → IsUndone r s t
unmoved-IsUndone r s t free h =
    subst (IsUndone r s) h (record { files = λ q. refl; journals = refl; free = free })

put-err :
    (ps : List String) (k : Key) (o : Owner) (digest : String) (state : OperationState)
    (result : Option Fields) (now : ℕ) (rows : Rows) (e : AgentError)
    → (put_idempotency ps k o digest state result now rows).0 ≡ err e
    → (put_idempotency ps k o digest state result now rows).1 ≡ rows
unfolding put_idempotency
put-err ps k o digest state result now rows e h = ground (arith, h)

module _ (c : Calls) (injective : (a b : Bytes) → c.tree.sha a ≡ c.tree.sha b → a ≡ b) (r : Request)
    (p : Prepared) where
  -- the result of a commit that is done is written: its marker was
  after_commit-ok :
      (pre : Preflight) (ps : List String) (s before : Service) (e : AgentError)
      → registered s ≡ ps
      → (put_idempotency ps (key_of r) r.owner p.digest running_state none c.now before.rows).0
        ≡ ok tt
      → s.rows
        ≡ (put_idempotency ps (key_of r) r.owner p.digest running_state none c.now before.rows).1
      → (after_commit c r p pre (ok tt) s).0 ≢ err e
  unfolding after_commit
  after_commit-ok pre ps s before e same marked kept h =
      let result = c.to_json (result_of c r pre) in
      let stored : (put_idempotency (registered s) (key_of r) r.owner p.digest succeeded_state
            (some result) c.now s.rows).0
          ≡ ok tt =
        ap
          (λ x.
            (put_idempotency x (key_of r) r.owner p.digest succeeded_state (some result) c.now
              s.rows).0)
          same
        ∙ ap
            (λ x.
              (put_idempotency ps (key_of r) r.owner p.digest succeeded_state (some result) c.now
                x).0)
            kept
        ∙ put-again ps (key_of r) r.owner p.digest running_state succeeded_state none (some result)
            c.now c.now before.rows marked in
      let q = rw (stored, after_commit) at h in cc

  after_commit-err :
      (pre : Preflight) (m : Raises (Unit {0})) (s t : Service) (e f : AgentError)
      → is_recovery_failed e ≡ false
      → m ≡ err f
      → after_commit c r p pre m s ≡ (err e, t)
      → (f ≡ e) × (record s { rows = delete_idempotency (key_of r) s.rows } ≡ t)
  unfolding after_commit
  after_commit-err pre m s t e f whole failed h =
      let q = rw (failed, after_commit) at h in
      let same = err-injective f e (ap (λ (x : Raises Fields × Service). x.0) q) in
      (
        same,
        if-false (is_recovery_failed f) s (record s { rows = delete_idempotency (key_of r) s.rows })
            t (ap is_recovery_failed same ∙ whole) (ap (λ (x : Raises Fields × Service). x.1) q),
      )

  apply_preflight-IsUndone :
      (pre : Preflight) (s t : Service) (e : AgentError)
      → Unique pre.desired
      → IsFree r s
      → is_recovery_failed e ≡ false
      → apply_preflight c r p pre s ≡ (err e, t)
      → IsUndone r s t
  unfolding apply_preflight
  apply_preflight-IsUndone pre s t e u free whole h =
      let marked =
        put_idempotency (registered s) (key_of r) r.owner p.digest running_state none c.now
          s.rows in
      let before = record s { rows = marked.1 } in
      let done = commit_patch c r p pre before in
      elim (with_ok-err marked.0 before t (λ _. after_commit c r p pre done.0 done.1) e h) [
        | inl (failed, same) ↦ subst (IsUndone r s) same (record {
          files = λ q. refl;
          journals = refl;
          free =
              ap (get_idempotency (key_of r) r.owner) (
                put-err (registered s) (key_of r) r.owner p.digest running_state none c.now s.rows e
                  failed)
              ∙ free;
        })
        | inr (_, ready, rest) ↦ elim (Result-cases done.0) [
          | inl (_, committed) ↦
              let (rows, projects) = commit_patch-keeps c r p pre before in
              absurd (
                after_commit-ok pre (registered s) done.1 s e
                  (ap (λ (x : Projects). map (λ q. q.0) x) projects) ready rows
                  (ap (λ (x : Raises Fields × Service). x.0)
                    (subst (λ m. after_commit c r p pre m done.1 ≡ (err e, t)) committed rest)))
          | inr (f, failed) ↦
              let (same, last) = after_commit-err pre done.0 done.1 t e f whole failed rest in
              let (files, journals) =
                commit_patch-err c injective r p pre before e u whole (failed ∙ ap err same) in
              subst (IsUndone r s) last (record {
                files = files;
                journals = journals;
                free = get-delete (key_of r) r.owner done.1.rows;
              })
        ]
      ]

  apply_held-IsUndone :
      (sections : List PatchSection) (s t : Service) (e : AgentError)
      → IsFree r s
      → is_recovery_failed e ≡ false
      → apply_held c r p sections s ≡ (err e, t)
      → IsUndone r s t
  unfolding apply_held
  apply_held-IsUndone sections s t e free whole h =
      elim (with_ok-err
        (c.check 1 >> preflight c.tree sections p.hashes >>= λ pre. c.check 2 >> ok pre) s t _ e
        h) [
          | inl (_, same) ↦ unmoved-IsUndone r s t free same
          | inr (pre, ready, rest) ↦ elim (Bool-cases r.dry_run) [
            | inl dry ↦ raised-ok (sym (if-true r.dry_run _ _ _ dry rest))
            | inr real ↦
                let (found, made, e1) =
                  >>=-eq-ok (c.check 1 >> preflight c.tree sections p.hashes) _ ready in
                let (_, _, e2) = >>=-eq-ok (c.check 1) _ made in
                let (_, _, e3) = >>=-eq-ok (c.check 2) _ e1 in
                apply_preflight-IsUndone pre s t e
                  (subst (λ (x : Preflight). Unique x.desired) (ok-injective found pre e3)
                    (preflight-Unique c.tree sections p.hashes found e2))
                  free whole (if-false r.dry_run _ _ _ real rest)
          ]
        ]

  apply_fresh-IsUndone :
      (s t : Service) (e : AgentError)
      → IsFree r s
      → is_recovery_failed e ≡ false
      → apply_fresh c r p s ≡ (err e, t)
      → IsUndone r s t
  unfolding apply_fresh
  apply_fresh-IsUndone s t e free whole h = elim (with_ok-err (parse r.patch) s t _ e h) [
    | inl (_, same) ↦ unmoved-IsUndone r s t free same
    | inr (sections, _, rest) ↦
        elim (holding-err p.project.root_fingerprint (patch_owner r) (apply_held c r p sections) s t
          e rest) [
            | inl same ↦ unmoved-IsUndone r s t free same
            | inr (held, after, body, last) ↦
                let inner =
                  apply_held-IsUndone sections (record s { gate = held }) after e free whole body in
                subst (IsUndone r s) last
                  (record { files = inner.files; journals = inner.journals; free = inner.free })
          ]
  ]

-- A patch that fails is as if it had never been sent. When the first attempt of a request raises, and
-- not because its rollback failed, every file is as it was, no journal is left, and the key is free
-- for another attempt: whatever the patch, the files and the point of failure. Different contents
-- have different digests.
pub apply-IsUndone :
    (c : Calls) (r : Request) (s t : Service) (e : AgentError)
    → ((a b : Bytes) → c.tree.sha a ≡ c.tree.sha b → a ≡ b)
    → get_idempotency (key_of r) r.owner s.rows ≡ ok none
    → is_recovery_failed e ≡ false
    → apply c r s ≡ (err e, t)
    → IsUndone r s t
unfolding apply apply_prior
apply-IsUndone c r s t e injective free whole h = elim (with_ok-err (prepare c r s) s t _ e h) [
  | inl (_, same) ↦ unmoved-IsUndone r s t free same
  | inr (p, _, rest) ↦
      elim (with_ok-err (get_idempotency (key_of r) r.owner s.rows) s t
        (λ prior. apply_prior c r p prior s) e rest) [
          | inl (_, same) ↦ unmoved-IsUndone r s t free same
          | inr (prior, found, last) ↦ apply_fresh-IsUndone c injective r p s t e free whole (
              subst (λ x. apply_prior c r p x s ≡ (err e, t))
                (ok-injective prior none (sym found ∙ free)) last)
        ]
]
