-- ===== src/Approvals/Forgotten.antt =====
-- Revocations, of what is saved and of what is being asked.
use mathlib.Core.Path.{subst}
use codito_mcp.Common.{
  String, ◌+◌, ◌≡◌, refl, sym, ◌≢◌, inl, inr, false, not, Option, none, some, List, [], arith,
  if◌then◌else◌, ok, err, nat_Eq, list_Eq, option_Eq, string_Eq, Option-cases,
}
use codito_mcp.Common.Dict.{lookup}
use codito_mcp.Errors.{plain, invalid_approval}
use codito_mcp.Db.Permissions.{Permissions, has_read_permission, revoke_read_permissions}
use codito_mcp.Approvals.Types.{ApprovalRequest, Manager}
use codito_mcp.Approvals.Saved.{
  Options, allowed, ask, screen_stage, shell_stage, read_stage, saved_permission, read_allowed,
  read_parts,
}
use codito_mcp.Approvals.Revocation.{manager_revoke_reads, revoke_all}

generation :
    (m : Manager) → (manager_revoke_reads m).1.security_generation ≡ m.security_generation + 1
unfolding manager_revoke_reads revoke_all
generation m = elim (Option-cases m.database) [
  | inl without ↦ rw (without, manager_revoke_reads, revoke_all) refl
  | inr (p, there) ↦ rw (there, manager_revoke_reads, revoke_all) refl
]

-- no permission to read is saved
abbrev pub NoReads : Option Permissions → Type 0
NoReads none = Unit
NoReads (some p) = p.reads ≡ []

manager_revoke_reads-NoReads : (m : Manager) → NoReads (manager_revoke_reads m).1.database
unfolding manager_revoke_reads revoke_all revoke_read_permissions
manager_revoke_reads-NoReads m = elim (Option-cases m.database) [
  | inl without ↦ rw (without, manager_revoke_reads, revoke_all) (subst NoReads (sym without) tt)
  | inr (p, there) ↦ rw (there, manager_revoke_reads, revoke_all) refl
]

no_permission :
    (key identity : String) (p : Permissions)
    → p.reads ≡ []
    → has_read_permission key identity p ≡ false
unfolding has_read_permission lookup
no_permission key identity p h = rw h refl

-- a scope, once it is given
scope-asks :
    (digest : List String → String) (r : ApprovalRequest) (o : Options) (scope : String × String)
    (db : Option Permissions)
    → NoReads db
    → (elim db [
      | none ↦ err (plain invalid_approval)
      | some p ↦
          if not (read_allowed r o scope.0)
          then err (plain invalid_approval)
          else if has_read_permission (digest (read_parts r.subject scope.0)) scope.1 p
          then ok allowed
          else ok (ask (digest (read_parts r.subject scope.0)))
    ])
      ≢ ok allowed
scope-asks digest r o scope none h e = ground arith
scope-asks digest r o scope (some p) h e =
    let absent = no_permission (digest (read_parts r.subject scope.0)) scope.1 p h in
    ground (arith, absent)

read_stage-asks :
    (digest : List String → String) (r : ApprovalRequest) (o : Options) (db : Option Permissions)
    (key : String)
    → NoReads db
    → read_stage digest r o db key ≢ ok allowed
unfolding read_stage
read_stage-asks digest r o db key h e = elim (Option-cases o.read_scope) [
  | inl no_scope ↦ let q = rw (no_scope, read_stage) at e in ground arith
  | inr (scope, given) ↦ scope-asks digest r o scope db h (rw (given, read_stage) at e)
]

-- Once the user has revoked what may be read, a request that names no shell and no screen scope is
-- not granted by what was saved before, and the generation has moved on, which voids every question
-- that is open then.
pub manager_revoke_reads-asks :
    (digest : List String → String) (r : ApprovalRequest) (o : Options) (m : Manager)
    → o.shell_scope ≡ none
    → o.screen_scope ≡ none
    → (saved_permission digest r o (manager_revoke_reads m).1.database ≢ ok allowed)
      × ((manager_revoke_reads m).1.security_generation ≡ m.security_generation + 1)
unfolding saved_permission screen_stage shell_stage read_stage read_allowed
manager_revoke_reads-asks digest r o m no_shell no_screen = (
  λ e.
      read_stage-asks digest r o (manager_revoke_reads m).1.database ""
        (manager_revoke_reads-NoReads m)
        (rw (no_screen, no_shell, saved_permission, screen_stage, shell_stage) at e),
  generation m,
)
