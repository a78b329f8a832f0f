-- ===== src/Approvals/Policy.antt =====
-- agent/src/codito_agent/access_policy.py: which project modes ask the local user, and which may
-- use what the user allowed for good.
use codito_mcp.Db.Permissions.{Permissions}
use codito_mcp.Common.{
  refl, ℕ, String, Bool, true, false, not, ◌||◌, Option, none, List, if◌then◌else◌, ok, err, ◌>>◌,
  raise_if, nat_Eq, list_Eq, option_Eq, string_Eq, ◌≡◌, ◌⊎◌, Bool-cases, inl, sym, arith, ap, inr,
  ◌∙◌, Result-cases, >>=-eq-ok,
}
use codito_mcp.Errors.{plain, project_disabled, sandbox_unavailable, Raises}
use codito_mcp.Models.{
  Project, ProjectMode, isolated, native_approval, native_trusted, native_project, full_access,
}
use codito_mcp.Approvals.Types.{ApprovalRequest, Manager}
use codito_mcp.Approvals.Saved.{
  Options, saved_permission, screen_stage, shell_stage, read_stage, ask,
}
use codito_mcp.Approvals.Request.{Times, Prompt, request}
use codito_mcp.Approvals.Outcome.{
  Consent, request-Grounds, saved, session, consent, session_consent,
}
use codito_mcp.Approvals.Revocation.{ensure_current}

pub record LocalAccessPolicy : Type 0 where
  pub requires_approval : Bool
  pub allow_saved_permissions : Bool

unfoldable pub mode_policy : ProjectMode → Bool → Bool → Raises LocalAccessPolicy
mode_policy isolated inside uncertain = err (plain sandbox_unavailable)
mode_policy full_access inside uncertain =
    ok (record { requires_approval = false; allow_saved_permissions = false })
mode_policy native_approval inside uncertain =
    ok (record { requires_approval = true; allow_saved_permissions = false })
mode_policy native_trusted inside uncertain =
    ok (record { requires_approval = true; allow_saved_permissions = false })
mode_policy native_project inside uncertain =
    ok (record { requires_approval = not inside || uncertain; allow_saved_permissions = true })

unfoldable pub project_access_policy : Project → Bool → Bool → Raises LocalAccessPolicy
project_access_policy project inside uncertain =
    raise_if (not project.enabled) (plain project_disabled)
    >> mode_policy project.mode inside uncertain

-- `scope if policy.allow_saved_permissions else None`
abbrev pub when {ℓ} : {A : Type ℓ} → Bool → Option A → Option A
when b scope = if b then scope else none

unfoldable pub policy_options :
    LocalAccessPolicy
    → Option (String × String)
    → Option (String × String)
    → Option (String × (String × String))
    → Options
policy_options policy read_scope shell_scope screen_scope = record {
  session_eligible = false;
  read_scope = when policy.allow_saved_permissions read_scope;
  shell_scope = when policy.allow_saved_permissions shell_scope;
  screen_scope = when policy.allow_saved_permissions screen_scope;
  reuse_shell_permission = policy.allow_saved_permissions;
}

-- what the operation is, as the caller classified it
pub record Classified : Type 0 where
  pub inside_project : Bool
  pub uncertain : Bool
  pub read_scope : Option (String × String)
  pub shell_scope : Option (String × String)
  pub screen_scope : Option (String × (String × String))

module _ (digest : List String → String) where
  -- `now` is the clock that `ensure_current` reads.
  unfoldable pub authorize_project_operation :
      Project
      → Classified
      → Prompt
      → ApprovalRequest
      → ℕ
      → Times
      → Manager
      → Raises (Unit {0}) × Manager
  authorize_project_operation project c prompt r now t m =
      elim (ensure_current m.security_generation r.deadline_at now m
        >> project_access_policy project c.inside_project c.uncertain) [
          | err e ↦ (err e, m)
          | ok policy ↦
              if not policy.requires_approval
              then (ok tt, m)
              else request digest prompt r
                  (policy_options policy c.read_scope c.shell_scope c.screen_scope) t m
        ]

-- the policy of the modes that ask for every operation
abbrev pub always_ask : LocalAccessPolicy
always_ask = record { requires_approval = true; allow_saved_permissions = false }

abbrev AskingMode : ProjectMode → Type 0
AskingMode mode = (mode ≡ native_approval) ⊎ (mode ≡ native_trusted)

mode_policy-always_ask :
    (mode : ProjectMode) (inside uncertain : Bool)
    → AskingMode mode
    → mode_policy mode inside uncertain ≡ ok always_ask
unfolding mode_policy
mode_policy-always_ask mode inside uncertain (inl e) = rw e refl
mode_policy-always_ask mode inside uncertain (inr e) = rw e refl

policy-enabled :
    (project : Project) (inside uncertain : Bool) (p : LocalAccessPolicy)
    → project_access_policy project inside uncertain ≡ ok p
    → (project.enabled ≡ true) × (mode_policy project.mode inside uncertain ≡ ok p)
unfolding project_access_policy
policy-enabled project inside uncertain p h = elim (Bool-cases project.enabled) [
  | inl on ↦ (
    on,
    rw
        (sym (
          ap
            (λ b.
              raise_if (not b) (plain project_disabled)
              >> mode_policy project.mode inside uncertain)
            on))
        h,
  )
  | inr off ↦ absurd (
      let q =
        sym (
          ap
            (λ b.
              raise_if (not b) (plain project_disabled)
              >> mode_policy project.mode inside uncertain)
            off)
        ∙ h in
      ground arith)
]

-- what the caller's scopes come to under a policy
abbrev pub options_of : LocalAccessPolicy → Classified → Options
options_of p c = policy_options p c.read_scope c.shell_scope c.screen_scope

saved_permission-no_scope :
    (digest : List String → String) (r : ApprovalRequest) (c : Classified) (db : Option Permissions)
    → saved_permission digest r (options_of always_ask c) db ≡ ok (ask "")
unfolding saved_permission screen_stage shell_stage read_stage policy_options
saved_permission-no_scope digest r c db = refl

request-always_ask :
    (digest : List String → String) (c : Classified) (prompt : Prompt) (r : ApprovalRequest)
    (t : Times) (m : Manager)
    → (request digest prompt r (options_of always_ask c) t m).0 ≡ ok tt
    → Consent prompt r (options_of always_ask c) t m
unfolding policy_options
request-always_ask digest c prompt r t m h =
    elim (request-Grounds digest prompt r (options_of always_ask c) t m h).1 [
      | saved s _ ↦
          absurd (let q = sym (saved_permission-no_scope digest r c m.database) ∙ s in ground arith)
      | session eligible _ _ ↦ absurd (ground arith)
      | consent _ given ↦ given
      | session_consent eligible _ ↦ absurd (ground arith)
    ]

-- Modes that ask for every operation never use or offer a saved permission: an operation is
-- authorized only if the project is enabled and the user is asked now and allows it.
authorize-asks :
    (digest : List String → String) (project : Project) (c : Classified) (prompt : Prompt)
    (r : ApprovalRequest) (now : ℕ) (t : Times) (m : Manager)
    → (project.mode ≡ native_approval) ⊎ (project.mode ≡ native_trusted)
    → (authorize_project_operation digest project c prompt r now t m).0 ≡ ok tt
    → (project.enabled ≡ true) × Consent prompt r (options_of always_ask c) t m
unfolding authorize_project_operation
authorize-asks digest project c prompt r now t m mode h =
    elim (Result-cases (
      ensure_current m.security_generation r.deadline_at now m
      >> project_access_policy project c.inside_project c.uncertain)) [
        | inr (e, failed) ↦
            absurd (let q = rw (failed, authorize_project_operation) at h in ground arith)
        | inl (p, given) ↦
            let (_, _, k) =
              >>=-eq-ok (ensure_current m.security_generation r.deadline_at now m)
                (λ _. project_access_policy project c.inside_project c.uncertain) given in
            let (on, mp) = policy-enabled project c.inside_project c.uncertain p k in
            let e =
              sym (mode_policy-always_ask project.mode c.inside_project c.uncertain mode) ∙ mp in
            (
              on,
              request-always_ask digest c prompt r t m
                  (rw (given ∙ sym e, authorize_project_operation) at h),
            )
      ]

unfoldable pub policy_program : Unit {0}
unfolding authorize_project_operation ensure_current project_access_policy mode_policy
    policy_options
policy_program = tt
