-- ===== src/Db/Projects/Rotation.antt =====
-- `rotate_project_ids` of agent/src/codito_agent/db.py: one transaction that renames the projects
-- one after another and empties `idempotency`.
use codito_mcp.Common.Dict.{contains}
use codito_mcp.Common.{
  ℕ, String, not, ◌&&◌, Option, none, some, List, [], ◌∷◌, map, if◌then◌else◌, ok, err, ◌>>=◌, ◌==◌,
  nat_Eq, list_Eq, option_Eq, string_Eq, is_empty,
}
pub use codito_mcp.Common.Dict.{Dict, lookup}
use codito_mcp.Errors.{plain, python_error}
use codito_mcp.Db.Projects.{Projects, Raises}
use codito_mcp.Db.Operations.{Operations}
use codito_mcp.Db.Idempotency.{Rows}

pub record Tables : Type 0 where
  pub projects : Projects
  pub operations : Operations
  pub idempotency : Rows

abbrev pub repoint : String → String → Option String → Option String
repoint old new none = none
repoint old new (some p) = if p == old then some new else some p

-- `UPDATE operations SET project_id=? WHERE project_id=?`
unfoldable pub repoint_operations : String → String → Operations → Operations
repoint_operations old new [] = []
repoint_operations old new ((id, row) ∷ ops) =
    (
      id,
      record row {
        binding = record row.binding { project_id = repoint old new row.binding.project_id };
      },
    )
    ∷ repoint_operations old new ops

-- `UPDATE projects SET project_id=?,updated_at=? WHERE project_id=?`
unfoldable pub rename_project : String → String → ℕ → Projects → Projects
rename_project old new now [] = []
rename_project old new now ((id, row) ∷ table) =
    let rest = rename_project old new now table in
    if id == old then (new, record row { updated_at = now }) ∷ rest else (id, row) ∷ rest

-- One pair of the mapping; a new name that is taken breaks the primary key.
unfoldable pub rotate_one : String → String → ℕ → Tables → Raises Tables
rotate_one old new now t =
    if contains new t.projects && not (old == new)
    then err (plain python_error)
    else ok (record t {
      projects = rename_project old new now t.projects;
      operations = repoint_operations old new t.operations;
    })

unfoldable pub rotate_all : List (String × String) → ℕ → Tables → Raises Tables
rotate_all [] now t = ok t
rotate_all ((old, new) ∷ pairs) now t = rotate_one old new now t >>= rotate_all pairs now

-- `mapping`: every project's new name
unfoldable pub new_names : (String → String) → Projects → List (String × String)
new_names fresh table = map (λ r. (r.0, fresh r.0)) table

unfoldable pub rotate_project_ids :
    (String → String) → ℕ → Tables → Raises (List (String × String)) × Tables
rotate_project_ids fresh now t =
    if is_empty t.projects
    then (ok [], t)
    else elim (rotate_all (new_names fresh t.projects) now t) [
      | err e ↦ (err e, t)
      | ok t' ↦ (ok (new_names fresh t.projects), record t' { idempotency = [] })
    ]
