-- ===== src/Approvals/Revocation.antt =====
-- `clear`, `invalidate_pending`, `ensure_current` and the `revoke_...` methods: each security event
-- moves the generation on.
use codito_mcp.Common.{
  ℕ, String, ◌+◌, Bool, false, not, ◌||◌, none, some, [], if◌then◌else◌, ok, err, raise_if, ◌==◌,
  nat_Eq, list_Eq, option_Eq, string_Eq, length, is_some, leb,
}
use codito_mcp.Errors.{plain, approval_expired, Raises}
use codito_mcp.Db.Permissions.{
  Permissions, revoke_read_permissions, revoke_shell_permissions, revoke_screen_permissions,
  revoke_permission,
}
use codito_mcp.Approvals.Types.{Manager}

unfoldable pub clear : Manager → ℕ × Manager
clear m =
    (length m.grants, record m { grants = []; security_generation = m.security_generation + 1 })

unfoldable pub invalidate_pending : Manager → Manager
invalidate_pending m = record m { security_generation = m.security_generation + 1 }

unfoldable pub supports_saved_permissions : Manager → Bool
supports_saved_permissions m = is_some m.database

unfoldable pub ensure_current : ℕ → ℕ → ℕ → Manager → Raises (Unit {0})
ensure_current generation deadline now m =
    raise_if (not (generation == m.security_generation) || leb deadline now)
      (plain approval_expired)

-- One of the three methods that forget every saved permission of a kind, by its call of the database.
unfoldable pub revoke_all : (Permissions → ℕ × Permissions) → Manager → ℕ × Manager
revoke_all revoke m = elim m.database [
  | none ↦ (0, record m { security_generation = m.security_generation + 1 })
  | some p ↦ (
    (revoke p).0,
    record m { database = some (revoke p).1; security_generation = m.security_generation + 1 },
  )
]

unfoldable pub manager_revoke_reads : Manager → ℕ × Manager
manager_revoke_reads m = revoke_all revoke_read_permissions m

unfoldable pub manager_revoke_shells : Manager → ℕ × Manager
manager_revoke_shells m = revoke_all revoke_shell_permissions m

unfoldable pub manager_revoke_screens : Manager → ℕ × Manager
manager_revoke_screens m = revoke_all revoke_screen_permissions m

-- Only a permission that was there moves the generation on.
unfoldable pub manager_revoke : String → String → Manager → Raises Bool × Manager
manager_revoke category id m = elim m.database [
  | none ↦ (ok false, m)
  | some p ↦
      let done = revoke_permission category id p in
      elim done.0 [
        | err e ↦ (err e, m)
        | ok deleted ↦ (
          ok deleted,
          record m {
            database = some done.1;
            security_generation =
                if deleted then m.security_generation + 1 else m.security_generation;
          },
        )
      ]
]
