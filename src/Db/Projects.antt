-- ===== src/Db/Projects.antt =====
-- The table `projects`: `register_project` to `disable_project` of
-- agent/src/codito_agent/db.py. `validate_project_root` reads the file system: its outcome, the
-- canonical root with its fingerprint or an exception, is an argument. Fresh UUIDs are arguments
-- too. The order of `list_projects` is not modelled.
use codito_mcp.Common.Dict.{contains, insert}
use codito_mcp.Text.{Text}
use codito_mcp.Common.{
  ℕ, zero, suc, String, ◌+◌, ◌-◌, ◌≤◌, ◌<◌, ◌≡◌, refl, sym, ap, ◌∙◌, ◌≢◌, ◌↔◌, ◌⊎◌, inl, inr, Bool,
  true, false, not, ◌&&◌, ◌||◌, Option, none, some, List, [], ◌∷◌, ◌++◌, map, arith, if◌then◌else◌,
  Result, ok, err, ◌>>=◌, ◌>>◌, raise_if, ◌==◌, nat_Eq, list_Eq, option_Eq, string_Eq, select, leb,
  nat_eq, is_empty, ltb, any, length,
}
pub use codito_mcp.Common.Dict.{Dict, lookup}
pub mod Registration
pub mod Rotation
pub mod Once
pub mod Next
pub mod Consistent
use codito_mcp.Errors.{plain, invalid_project, project_exists, project_not_found, Raises}
use codito_mcp.Models.{ProjectMode, Project}

pub record Row : Type 0 where
  pub title : Text
  pub root : Text
  pub root_fingerprint : String
  pub mode : ProjectMode
  pub enabled : Bool
  pub created_at : ℕ
  pub updated_at : ℕ

abbrev pub Projects : Type 0
Projects = Dict String Row

-- the characters that `str.strip` removes
unfoldable pub is_space : ℕ → Bool
is_space c =
    (leb 9 c && leb c 13)
    || (leb 28 c && leb c 32)
    || nat_eq c 133
    || nat_eq c 160
    || nat_eq c 5760
    || (leb 8192 c && leb c 8202)
    || nat_eq c 8232
    || nat_eq c 8233
    || nat_eq c 8239
    || nat_eq c 8287
    || nat_eq c 12288

unfoldable pub lstrip : Text → Text
lstrip [] = []
lstrip (c ∷ s) = let rest = lstrip s in if is_space c then rest else c ∷ s

unfoldable pub rstrip : Text → Text
rstrip [] = []
rstrip (c ∷ s) = let rest = rstrip s in if is_empty rest && is_space c then [] else c ∷ rest

unfoldable pub strip : Text → Text
strip s = rstrip (lstrip s)

-- the guard on a stripped title
unfoldable pub bad_title : Text → Bool
bad_title title = is_empty title || ltb 120 (length title)

unfoldable pub project_of : String → Row → Project
project_of id row = record {
  project_id = id;
  title = row.title;
  root = row.root;
  root_fingerprint = row.root_fingerprint;
  mode = row.mode;
  enabled = row.enabled;
}

abbrev pub new_row : Text → Text × String → ProjectMode → ℕ → Row
new_row title (root, fingerprint) mode now = record {
  title = title;
  root = root;
  root_fingerprint = fingerprint;
  mode = mode;
  enabled = true;
  created_at = now;
  updated_at = now;
}

-- the unique columns of the insertion: the primary key and the root
unfoldable pub taken : String → Text → Projects → Bool
taken id root table = contains id table || any (λ r. r.1.root == root) table

unfoldable pub insert_project : String → Row → Projects → Raises Project × Projects
insert_project id row table =
    if taken id row.root table
    then (err (plain project_exists), table)
    else (ok (project_of id row), insert id row table)

unfoldable pub register_project :
    Text → Raises (Text × String) → ProjectMode → String → ℕ → Projects → Raises Project × Projects
register_project title validated mode id now table =
    if bad_title (strip title) then (err (plain invalid_project), table) else elim validated [
      | err e ↦ (err e, table)
      | ok root ↦ insert_project id (new_row (strip title) root mode now) table
    ]

unfoldable pub get_project : String → Projects → Raises Project
get_project id table = elim (lookup id table) [
  | none ↦ err (plain project_not_found)
  | some row ↦ ok (project_of id row)
]

unfoldable pub list_projects : Bool → Projects → List Project
list_projects enabled_only table =
    map (λ r. project_of r.0 r.1) (select (λ r. not enabled_only || r.1.enabled) table)

-- `UPDATE projects SET ... WHERE project_id=?`
unfoldable pub update_project : String → (Row → Row) → Projects → Raises (Unit {0}) × Projects
update_project id f table = elim (lookup id table) [
  | none ↦ (err (plain project_not_found), table)
  | some row ↦ (ok tt, insert id (f row) table)
]

unfoldable pub set_project_mode : String → ProjectMode → ℕ → Projects → Raises (Unit {0}) × Projects
set_project_mode id mode now table =
    update_project id (λ row. record row { mode = mode; updated_at = now }) table

unfoldable pub set_project_title : String → Text → ℕ → Projects → Raises (Unit {0}) × Projects
set_project_title id title now table =
    if bad_title (strip title)
    then (err (plain invalid_project), table)
    else update_project id (λ row. record row { title = strip title; updated_at = now }) table

unfoldable pub set_project_enabled : String → Bool → ℕ → Projects → Raises (Unit {0}) × Projects
set_project_enabled id enabled now table =
    update_project id (λ row. record row { enabled = enabled; updated_at = now }) table

unfoldable pub disable_project : String → ℕ → Projects → Raises (Unit {0}) × Projects
disable_project id now table = set_project_enabled id false now table
