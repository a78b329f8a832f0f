-- ===== src/Relay/Listing.antt =====
-- relay/codito_relay/core/dispatch.py: `_list_projects` and `_list_managed_projects`. The identifiers
-- are UUIDs, by their numbers, in whose order the database has them. `signing` is a parameter; an
-- expired cursor is one that it does not load; the caller's device is an argument.
pub mod Pages
pub mod Walk
use codito_mcp.Common.{
  ℕ, zero, suc, String, ◌+◌, ◌-◌, Bool, ◌&&◌, Option, none, some, List, [], ◌∷◌, map, if◌then◌else◌,
  ok, err, ◌>>=◌, ◌==◌, nat_Eq, string_Eq, ltb, length, take, select,
}
use codito_mcp.Relay.Types.{Principal, Dispatched, fatal, Device}
use codito_mcp.Relay.Route.{is_connected}

-- `Project`, as far as a listing shows it
pub record ListedProject : Type 0 where
  pub id : ℕ
  pub account_id : ℕ
  pub device_id : String
  pub is_available : Bool
  pub title : String
  pub mode : String

-- what a cursor holds: `binding` and `id`
pub record Cursor : Type 0 where
  pub account_id : ℕ
  pub device_id : String
  pub link_id : String
  pub id : ℕ

pub record Signing : Type 0 where
  pub dumps : Cursor → String
  pub loads : String → Option Cursor

-- an entry of the answer
pub record Entry : Type 0 where
  pub project_id : ℕ
  pub title : String
  pub device_id : String
  pub mode : String
  pub online : Bool

pub record Listing : Type 0 where
  pub operation : String
  pub projects : List Entry
  pub continuation : Option String

unfoldable pub is_listed : Principal → ListedProject → Bool
is_listed who p = p.account_id == who.account_id && p.device_id == who.device_id && p.is_available

-- `id__gt`
abbrev pub is_after : ℕ → ListedProject → Bool
is_after id p = ltb id p.id

unfoldable pub is_bound : Principal → Cursor → Bool
is_bound who c =
    c.account_id == who.account_id && c.device_id == who.device_id && c.link_id == who.link_id

-- the cursor's identifier: of a cursor that was signed, and for this caller
unfoldable pub open_cursor : Principal → Option Cursor → Dispatched ℕ
open_cursor who none = err (fatal "invalid_request")
open_cursor who (some c) = if is_bound who c then ok c.id else err (fatal "invalid_request")

-- the projects after the cursor; without one, or with an empty one, all of them
unfoldable pub after_cursor :
    Signing → Principal → Option String → List ListedProject → Dispatched (List ListedProject)
after_cursor keys who none projects = ok projects
after_cursor keys who (some text) projects =
    if text == ""
    then ok projects
    else open_cursor who (keys.loads text) >>= λ id. ok (select (is_after id) projects)

-- `page[limit - 1].pk`, of a page that is long enough
unfoldable pub nth_id : ℕ → List ListedProject → ℕ
nth_id n [] = 0
nth_id zero (p ∷ ps) = p.id
nth_id (suc n) (p ∷ ps) = nth_id n ps

abbrev pub entry_of : Bool → ListedProject → Entry
entry_of online p = record {
  project_id = p.id;
  title = p.title;
  device_id = p.device_id;
  mode = p.mode;
  online = online;
}

-- the cursor of a caller behind a project
abbrev pub cursor_at : Principal → ℕ → Cursor
cursor_at who id = record {
  account_id = who.account_id;
  device_id = who.device_id;
  link_id = who.link_id;
  id = id;
}

unfoldable pub listing : Signing → Principal → Bool → ℕ → List ListedProject → Listing
listing keys who online limit projects =
    let page = take (limit + 1) projects in
    record {
      operation = "list_projects";
      projects = map (entry_of online) (take limit page);
      continuation =
          if ltb limit (length page)
          then some (keys.dumps (cursor_at who (nth_id (limit - 1) page)))
          else none;
    }

-- `_list_projects`, of a table in the order of its identifiers; `limit` is 50 where none is given
unfoldable pub list_projects :
    Signing
    → ℕ
    → ℕ
    → Principal
    → Device
    → Option String
    → ℕ
    → List ListedProject
    → Dispatched Listing
list_projects keys now offline_after who device cursor limit table =
    after_cursor keys who cursor (select (is_listed who) table) >>= λ projects.
    ok (listing keys who (is_connected now offline_after device) limit projects)

-- `_list_managed_projects`
unfoldable pub list_managed_projects :
    Signing
    → ℕ
    → ℕ
    → Principal
    → Device
    → Option String
    → ℕ
    → List ListedProject
    → Dispatched Listing
list_managed_projects keys now offline_after who device cursor limit table =
    list_projects keys now offline_after who device cursor limit table >>= λ l.
    ok (record l { operation = "get_projects" })
