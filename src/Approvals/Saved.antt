-- ===== src/Approvals/Saved.antt =====
-- What `ApprovalManager.request` does before it asks: the scopes are checked, and a permission that
-- was saved before ends the call.
use codito_mcp.Common.{
  String, Bool, not, ◌&&◌, Option, none, some, List, [], ◌∷◌, ◌++◌, if◌then◌else◌, ok, err, ◌>>=◌,
  ◌==◌, nat_Eq, list_Eq, option_Eq, string_Eq, is_some, is_empty,
}
use codito_mcp.Errors.{plain, invalid_approval, Raises}
use codito_mcp.Db.Permissions.{
  Permissions, has_read_permission, has_shell_permission, has_screen_permission,
}
use codito_mcp.Approvals.Types.{is_read, is_native, Subject, ApprovalRequest}

-- the keyword arguments of `request`
pub record Options : Type 0 where
  pub session_eligible : Bool
  pub read_scope : Option (String × String)
  pub shell_scope : Option (String × String)
  pub screen_scope : Option (String × (String × String))
  pub reuse_shell_permission : Bool

-- Either the method returns, as a permission was saved before, or it goes on with the key.
pub data Saved : Type 0 where
  allowed : Saved
  ask : String → Saved

-- the conditions under which a permission may be saved
unfoldable pub screen_allowed : ApprovalRequest → Options → String → Bool
screen_allowed r o display =
    not (is_some o.read_scope)
    && not (is_some o.shell_scope)
    && r.subject.capability == "screen:read"
    && is_read r.risk
    && not (is_some r.command)
    && not (is_some r.patch)
    && is_empty r.requested_external_paths
    && not r.requested_network
    && r.subject.project_id == display
    && not o.session_eligible

unfoldable pub shell_allowed : ApprovalRequest → Options → Bool
shell_allowed r o =
    not (is_some o.read_scope)
    && r.subject.capability == "shell:execute"
    && is_native r.risk
    && is_some r.command
    && not (is_some r.patch)
    && not o.session_eligible

unfoldable pub read_allowed : ApprovalRequest → Options → String → Bool
read_allowed r o path =
    r.subject.capability == "device:read"
    && is_read r.risk
    && not r.requested_network
    && not (is_some r.command)
    && not (is_some r.patch)
    && not o.session_eligible
    && r.requested_external_paths == (path ∷ [])

-- the parts of a key that every kind has
unfoldable pub who : Subject → List String
who s = s.account_id ∷ s.grant_id ∷ s.link_id ∷ s.device_id ∷ []

unfoldable pub screen_parts : Subject → String → List String
screen_parts s display = who s ++ ("screen:read" ∷ display ∷ [])

unfoldable pub shell_parts : Subject → String → List String
shell_parts s scope = who s ++ (s.project_id ∷ "shell:execute" ∷ s.action_digest ∷ scope ∷ [])

unfoldable pub read_parts : Subject → String → List String
read_parts s path =
    who s
    ++ ("device:read"
        ∷ path
        ∷ (if s.project_id == "" then [] else "origin_project" ∷ s.project_id ∷ []))

module _ (digest : List String → String) where
  -- `if screen_scope is not None`
  unfoldable pub screen_stage :
      ApprovalRequest → Options → Option Permissions → String → Raises Saved
  screen_stage r o db key = elim o.screen_scope [
    | none ↦ ok (ask key)
    | some scope ↦ elim db [
      | none ↦ err (plain invalid_approval)
      | some p ↦
          if not (screen_allowed r o scope.0)
          then err (plain invalid_approval)
          else if has_screen_permission (digest (screen_parts r.subject scope.0)) scope.1.0 p
          then ok allowed
          else ok (ask (digest (screen_parts r.subject scope.0)))
    ]
  ]

  -- `if shell_scope is not None`
  unfoldable pub shell_stage :
      ApprovalRequest → Options → Option Permissions → String → Raises Saved
  shell_stage r o db key = elim o.shell_scope [
    | none ↦ ok (ask key)
    | some scope ↦ elim db [
      | none ↦ err (plain invalid_approval)
      | some p ↦
          if not (shell_allowed r o)
          then err (plain invalid_approval)
          else if o.reuse_shell_permission
              && has_shell_permission (digest (shell_parts r.subject scope.0)) scope.1 p
          then ok allowed
          else ok (ask (digest (shell_parts r.subject scope.0)))
    ]
  ]

  -- `if read_scope is not None`
  unfoldable pub read_stage : ApprovalRequest → Options → Option Permissions → String → Raises Saved
  read_stage r o db key = elim o.read_scope [
    | none ↦ ok (ask key)
    | some scope ↦ elim db [
      | none ↦ err (plain invalid_approval)
      | some p ↦
          if not (read_allowed r o scope.0)
          then err (plain invalid_approval)
          else if has_read_permission (digest (read_parts r.subject scope.0)) scope.1 p
          then ok allowed
          else ok (ask (digest (read_parts r.subject scope.0)))
    ]
  ]

  abbrev pub next_stage : Saved → (String → Raises Saved) → Raises Saved
  next_stage allowed k = ok allowed
  next_stage (ask key) k = k key

  unfoldable pub saved_permission : ApprovalRequest → Options → Option Permissions → Raises Saved
  saved_permission r o db = screen_stage r o db "" >>= λ s.
      next_stage s (shell_stage r o db) >>= λ s. next_stage s (read_stage r o db)
