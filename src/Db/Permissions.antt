-- ===== src/Db/Permissions.antt =====
-- The tables `read_permissions`, `shell_permissions` and `screen_permissions` of
-- agent/src/codito_agent/db.py: what the user allowed for good. The queries that list them for the
-- settings window are not modelled.
use codito_mcp.Common.Dict.{insert, contains, remove}
use codito_mcp.Common.{
  ℕ, String, Bool, false, Option, none, some, [], if◌then◌else◌, ok, err, ◌==◌, nat_Eq, list_Eq,
  option_Eq, string_Eq, length,
}
pub use codito_mcp.Common.Dict.{Dict, lookup}
use codito_mcp.Errors.{plain, invalid_permission, Raises}

-- a row of `read_permissions` or of `shell_permissions`
pub record PathGrant : Type 0 where
  pub scope_path : String
  pub root_identity : String
  pub account_id : String
  pub link_id : String
  pub created_at : ℕ

-- a row of `screen_permissions`
pub record ScreenGrant : Type 0 where
  pub display_id : String
  pub display_identity : String
  pub display_label : String
  pub account_id : String
  pub link_id : String
  pub created_at : ℕ

pub record Permissions : Type 0 where
  pub reads : Dict String PathGrant
  pub shells : Dict String PathGrant
  pub screens : Dict String ScreenGrant

abbrev pub identity_is : String → Option PathGrant → Bool
identity_is identity none = false
identity_is identity (some g) = g.root_identity == identity

abbrev pub display_is : String → Option ScreenGrant → Bool
display_is identity none = false
display_is identity (some g) = g.display_identity == identity

unfoldable pub has_read_permission : String → String → Permissions → Bool
has_read_permission key identity p = identity_is identity (lookup key p.reads)

unfoldable pub has_shell_permission : String → String → Permissions → Bool
has_shell_permission key identity p = identity_is identity (lookup key p.shells)

unfoldable pub has_screen_permission : String → String → Permissions → Bool
has_screen_permission key identity p = display_is identity (lookup key p.screens)

unfoldable pub save_read_permission :
    String → String → String → String → String → ℕ → Permissions → Permissions
save_read_permission key scope identity account link now p = record p {
  reads =
      insert key
        (record {
          scope_path = scope;
          root_identity = identity;
          account_id = account;
          link_id = link;
          created_at = now;
        })
        p.reads;
}

unfoldable pub save_shell_permission :
    String → String → String → String → String → ℕ → Permissions → Permissions
save_shell_permission key scope identity account link now p = record p {
  shells =
      insert key
        (record {
          scope_path = scope;
          root_identity = identity;
          account_id = account;
          link_id = link;
          created_at = now;
        })
        p.shells;
}

unfoldable pub save_screen_permission :
    String → String → String → String → String → String → ℕ → Permissions → Permissions
save_screen_permission key display_id identity label account link now p = record p {
  screens =
      insert key
        (record {
          display_id = display_id;
          display_identity = identity;
          display_label = label;
          account_id = account;
          link_id = link;
          created_at = now;
        })
        p.screens;
}

unfoldable pub revoke_read_permissions : Permissions → ℕ × Permissions
revoke_read_permissions p = (length p.reads, record p { reads = [] })

unfoldable pub revoke_shell_permissions : Permissions → ℕ × Permissions
revoke_shell_permissions p = (length p.shells, record p { shells = [] })

unfoldable pub revoke_screen_permissions : Permissions → ℕ × Permissions
revoke_screen_permissions p = (length p.screens, record p { screens = [] })

-- `DELETE`, and whether `rowcount` is 1: the key is the primary key
unfoldable pub revoke_permission : String → String → Permissions → Raises Bool × Permissions
revoke_permission category id p =
    if category == "read"
    then (ok (contains id p.reads), record p { reads = remove id p.reads })
    else if category == "shell"
    then (ok (contains id p.shells), record p { shells = remove id p.shells })
    else if category == "screen"
    then (ok (contains id p.screens), record p { screens = remove id p.screens })
    else (err (plain invalid_permission), p)
