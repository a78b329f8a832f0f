-- ===== src/Approvals/Earlier.antt =====
-- The permissions that an earlier answer saved, beside the stages of `ApprovalManager.request`.
use codito_mcp.Common.{
  String, ◌≡◌, refl, inl, inr, true, Option, some, List, [], ◌∷◌, arith, if◌then◌else◌, ok, ◌==◌,
  nat_Eq, list_Eq, option_Eq, string_Eq, Option-cases, >>=-eq-ok, ◌∙◌, ap,
}
use codito_mcp.Errors.{Raises}
use codito_mcp.Common.Dict.{lookup}
use codito_mcp.Db.Permissions.{
  PathGrant, ScreenGrant, Permissions, has_screen_permission, has_read_permission,
  has_shell_permission,
}
use codito_mcp.Approvals.Types.{ApprovalRequest}
use codito_mcp.Approvals.Saved.{
  Options, allowed, screen_stage, screen_allowed, screen_parts, who, saved_permission, read_stage,
  shell_stage, read_allowed, shell_allowed, read_parts, shell_parts, next_stage, Saved, ask,
}

-- A row that the user's earlier answer left: under the key of this very account, grant, link, device,
-- capability and scope, and for a command of this very action, with the identity that the scope has now.
pub data IsSaved (digest : List String → String) (r : ApprovalRequest) (o : Options)
    (db : Option Permissions) : Type 0 where
  saved_screen :
      (p : Permissions) (scope : String × (String × String)) (g : ScreenGrant)
      → db ≡ some p
      → o.screen_scope ≡ some scope
      → r.subject.capability ≡ "screen:read"
      → lookup
          (digest (
            r.subject.account_id ∷ r.subject.grant_id ∷ r.subject.link_id ∷ r.subject.device_id
            ∷ "screen:read" ∷ scope.0 ∷ []))
          p.screens
        ≡ some g
      → g.display_identity ≡ scope.1.0
      → IsSaved digest r o db
  saved_shell :
      (p : Permissions) (scope : String × String) (g : PathGrant)
      → db ≡ some p
      → o.shell_scope ≡ some scope
      → o.reuse_shell_permission ≡ true
      → r.subject.capability ≡ "shell:execute"
      → lookup
          (digest (
            r.subject.account_id ∷ r.subject.grant_id ∷ r.subject.link_id ∷ r.subject.device_id
            ∷ r.subject.project_id ∷ "shell:execute" ∷ r.subject.action_digest ∷ scope.0 ∷ []))
          p.shells
        ≡ some g
      → g.root_identity ≡ scope.1
      → IsSaved digest r o db
  saved_read :
      (p : Permissions) (scope : String × String) (g : PathGrant)
      → db ≡ some p
      → o.read_scope ≡ some scope
      → r.subject.capability ≡ "device:read"
      → lookup
          (digest (
            r.subject.account_id
            ∷ r.subject.grant_id
            ∷ r.subject.link_id
            ∷ r.subject.device_id
            ∷ "device:read"
            ∷ scope.0
            ∷ (if r.subject.project_id == ""
                then []
                else "origin_project" ∷ r.subject.project_id ∷ [])))
          p.reads
        ≡ some g
      → g.root_identity ≡ scope.1
      → IsSaved digest r o db

module _ (digest : List String → String) (r : ApprovalRequest) (o : Options)
    (db : Option Permissions) where
  screen_stage-IsSaved :
      (key : String) → screen_stage digest r o db key ≡ ok allowed → IsSaved digest r o db
  unfolding screen_stage screen_allowed screen_parts who has_screen_permission
  screen_stage-IsSaved key h = elim (Option-cases o.screen_scope) [
    | inl e ↦ absurd (let q = rw (e, screen_stage) at h in ground arith)
    | inr (scope, e) ↦
        let q = rw (e, screen_stage) at h in
        elim (Option-cases db) [
          | inl k ↦ absurd (let z = rw k at q in ground arith)
          | inr (p, k) ↦
              let z = rw k at q in
              let key = digest (screen_parts r.subject scope.0) in
              elim (Option-cases (lookup key p.screens)) [
                | inl absent ↦
                    absurd (let y = rw (absent, has_screen_permission) at z in ground arith)
                | inr (g, found) ↦
                    let y = rw (found, has_screen_permission) at z in
                    saved_screen p scope g k e
                      ((string_Eq.beq_iff r.subject.capability "screen:read").0 (ground arith))
                      found ((string_Eq.beq_iff g.display_identity scope.1.0).0 (ground arith))
              ]
        ]
  ]

  shell_stage-IsSaved :
      (key : String) → shell_stage digest r o db key ≡ ok allowed → IsSaved digest r o db
  unfolding shell_stage shell_allowed shell_parts who has_shell_permission
  shell_stage-IsSaved key h = elim (Option-cases o.shell_scope) [
    | inl e ↦ absurd (let q = rw (e, shell_stage) at h in ground arith)
    | inr (scope, e) ↦
        let q = rw (e, shell_stage) at h in
        elim (Option-cases db) [
          | inl k ↦ absurd (let z = rw k at q in ground arith)
          | inr (p, k) ↦
              let z = rw k at q in
              let key = digest (shell_parts r.subject scope.0) in
              elim (Option-cases (lookup key p.shells)) [
                | inl absent ↦
                    absurd (let y = rw (absent, has_shell_permission) at z in ground arith)
                | inr (g, found) ↦
                    let y = rw (found, has_shell_permission) at z in
                    saved_shell p scope g k e (ground arith)
                      ((string_Eq.beq_iff r.subject.capability "shell:execute").0 (ground arith))
                      found ((string_Eq.beq_iff g.root_identity scope.1).0 (ground arith))
              ]
        ]
  ]

  read_stage-IsSaved :
      (key : String) → read_stage digest r o db key ≡ ok allowed → IsSaved digest r o db
  unfolding read_stage read_allowed read_parts who has_read_permission
  read_stage-IsSaved key h = elim (Option-cases o.read_scope) [
    | inl e ↦ absurd (let q = rw (e, read_stage) at h in ground arith)
    | inr (scope, e) ↦
        let q = rw (e, read_stage) at h in
        elim (Option-cases db) [
          | inl k ↦ absurd (let z = rw k at q in ground arith)
          | inr (p, k) ↦
              let z = rw k at q in
              let key = digest (read_parts r.subject scope.0) in
              elim (Option-cases (lookup key p.reads)) [
                | inl absent ↦
                    absurd (let y = rw (absent, has_read_permission) at z in ground arith)
                | inr (g, found) ↦
                    let y = rw (found, has_read_permission) at z in
                    saved_read p scope g k e
                      ((string_Eq.beq_iff r.subject.capability "device:read").0 (ground arith))
                      found ((string_Eq.beq_iff g.root_identity scope.1).0 (ground arith))
              ]
        ]
  ]

  next_stage-IsSaved :
      (stage : String → Raises Saved) (x : Saved)
      → ((key : String) → stage key ≡ ok allowed → IsSaved digest r o db)
      → (x ≡ allowed → IsSaved digest r o db)
      → next_stage digest x stage ≡ ok allowed
      → IsSaved digest r o db
  next_stage-IsSaved stage allowed here before h = before refl
  next_stage-IsSaved stage (ask key) here before h = here key h

  pub saved_permission-IsSaved : saved_permission digest r o db ≡ ok allowed → IsSaved digest r o db
  unfolding saved_permission
  saved_permission-IsSaved h =
      let (first, screen, rest) = >>=-eq-ok (screen_stage digest r o db "") _ h in
      let (second, middle, last) =
        >>=-eq-ok (next_stage digest first (shell_stage digest r o db))
          (λ s. next_stage digest s (read_stage digest r o db)) rest in
      next_stage-IsSaved (read_stage digest r o db) second read_stage-IsSaved
        (λ e.
          next_stage-IsSaved (shell_stage digest r o db) first shell_stage-IsSaved
            (λ k. screen_stage-IsSaved "" (screen ∙ ap ok k)) (middle ∙ ap ok e))
        last
