-- ===== src/Db/Projects/Registration.antt =====
-- The table `project_registration_requests`: a remote caller asks for a project, and the local
-- user picks its folder or dismisses the request
-- (agent/src/codito_agent/db.py, `create_project_registration_request` and what follows).
use codito_mcp.Common.Dict.{insert}
use codito_mcp.Text.{Text}
use codito_mcp.Common.{
  ℕ, String, ◌+◌, Bool, true, false, ◌&&◌, Option, none, some, [], ◌∷◌, if◌then◌else◌, ok, err,
  nat_Eq, list_Eq, option_Eq, string_Eq, ltb, leb,
}
pub use codito_mcp.Common.Dict.{Dict, lookup}
use codito_mcp.Errors.{plain, invalid_project, request_not_found, request_expired}
use codito_mcp.Models.{Project, isolated}
use codito_mcp.Db.Projects.{Projects, register_project, strip, bad_title, Raises, Text}

pub data Status : Type 0 where
  pending completed dismissed expired : Status

unfoldable pub is_pending : Status → Bool
is_pending pending = true
is_pending _ = false

pub record Request : Type 0 where
  pub title : Text
  pub account_id : String
  pub grant_id : String
  pub link_id : String
  pub device_id : String
  pub connection_epoch : ℕ
  pub status : Status
  pub expires_at : ℕ
  pub created_at : ℕ
  pub updated_at : ℕ

abbrev pub Requests : Type 0
Requests = Dict String Request

-- 15 minutes, in microseconds
abbrev pub request_lifetime : ℕ
request_lifetime = 900000000

unfoldable pub create_request :
    String → Text → String → String → String → String → ℕ → ℕ → Requests → Raises String × Requests
create_request id title account grant link device epoch now table =
    if bad_title (strip title) then (err (plain invalid_project), table) else (
      ok id,
      insert id
          (record {
            title = strip title;
            account_id = account;
            grant_id = grant;
            link_id = link;
            device_id = device;
            connection_epoch = epoch;
            status = pending;
            expires_at = now + request_lifetime;
            created_at = now;
            updated_at = now;
          })
          table,
    )

abbrev pub move : Status → ℕ → Request → Request
move status now r = record r { status = status; updated_at = now }

unfoldable pub is_stale : ℕ → Request → Bool
is_stale now r = is_pending r.status && leb r.expires_at now

unfoldable pub expire_requests : ℕ → Requests → Requests
expire_requests now [] = []
expire_requests now ((id, r) ∷ table) =
    (id, if is_stale now r then move expired now r else r) ∷ expire_requests now table

abbrev pub earlier : String × Request → Option (String × Request) → Option (String × Request)
earlier a none = some a
earlier a (some b) = if ltb b.1.created_at a.1.created_at then some b else some a

-- `... WHERE status='pending' ORDER BY created_at LIMIT 1`
unfoldable pub oldest_pending : Requests → Option (String × Request)
oldest_pending [] = none
oldest_pending ((id, r) ∷ table) =
    let rest = oldest_pending table in if is_pending r.status then earlier (id, r) rest else rest

unfoldable pub next_request : ℕ → Requests → Option (String × Request) × Requests
next_request now table = (oldest_pending (expire_requests now table), expire_requests now table)

-- `UPDATE ... SET status=? WHERE request_id=? AND status='pending'`, and whether a row changed
unfoldable pub move_pending : String → Status → ℕ → Requests → Bool × Requests
move_pending id status now table = elim (lookup id table) [
  | none ↦ (false, table)
  | some r ↦
      if is_pending r.status then (true, insert id (move status now r) table) else (false, table)
]

unfoldable pub dismiss_request : String → Bool → ℕ → Requests → Raises (Unit {0}) × Requests
dismiss_request id is_expired now table =
    let moved = move_pending id (if is_expired then expired else dismissed) now table in
    if moved.0 then (ok tt, moved.1) else (err (plain request_not_found), moved.1)

-- the row that the first query of `complete_project_registration_request` finds
unfoldable pub find_pending : String → Requests → Option Request
find_pending id table = elim (lookup id table) [
  | none ↦ none
  | some r ↦ if is_pending r.status then some r else none
]

-- The three times are those of the check, of the registration and of the last update.
unfoldable pub complete_request :
    String
    → Raises (Text × String)
    → String
    → ℕ
    → ℕ
    → ℕ
    → Projects
    → Requests
    → Raises Project × (Projects × Requests)
complete_request id validated fresh now now' now'' projects table = elim (find_pending id table) [
  | none ↦ (err (plain request_not_found), (projects, table))
  | some r ↦
      if leb r.expires_at now
      then (err (plain request_expired), (projects, (dismiss_request id true now table).1))
      else let registered = register_project r.title validated isolated fresh now' projects in
        elim registered.0 [
          | err e ↦ (err e, (registered.1, table))
          | ok project ↦ (ok project, (registered.1, (move_pending id completed now'' table).1))
        ]
]

unfoldable pub completion_program : Unit {0}
unfolding complete_request find_pending dismiss_request move_pending is_pending register_project
    bad_title strip codito_mcp.Db.Projects.lstrip codito_mcp.Db.Projects.rstrip
    codito_mcp.Db.Projects.is_space codito_mcp.Db.Projects.insert_project
    codito_mcp.Db.Projects.taken codito_mcp.Db.Projects.project_of lookup insert
completion_program = tt
