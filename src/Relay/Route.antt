-- ===== src/Relay/Route.antt =====
-- `_lookup_route`, and when a device counts as connected.
use codito_mcp.Common.Dict.{lookup}
use codito_mcp.Common.{
  ℕ, String, ◌-◌, Bool, false, not, ◌&&◌, ◌||◌, Option, none, some, if◌then◌else◌, ok, err, ◌>>=◌,
  ◌==◌, nat_Eq, list_Eq, option_Eq, string_Eq, leb,
}
use codito_mcp.Db.Json.{Fields}
use codito_mcp.Relay.Types.{
  fatal, Dispatched, Principal, Device, RelayProject, Store, text_field, lookup, is_online,
}

unfoldable pub is_device_tool : String → Bool
is_device_tool tool =
    tool == "device_read" || tool == "device_screenshot" || tool == "device_desktop"

-- the calls that name no project
unfoldable pub needs_no_project : String → Fields → Bool
needs_no_project tool args =
    (is_device_tool tool && text_field "project_id" args == "")
    || (tool == "project_read" && text_field "operation" args == "list_projects")
    || (tool == "project_manage"
        && (text_field "operation" args == "get_projects"
            || text_field "operation" args == "request_add_project"))

unfoldable pub is_reachable : Principal → RelayProject → Bool
is_reachable p project =
    project.account_id == p.account_id && project.device_id == p.device_id && project.available

unfoldable pub find_device : Principal → Store → Dispatched Device
find_device p s = elim (lookup p.device_id s.devices) [
  | none ↦ err (fatal "device_not_found")
  | some d ↦
      if d.account_id == p.account_id && not d.is_gone then ok d else err (fatal "device_not_found")
]

unfoldable pub find_project : Principal → String → Store → Dispatched (Option String)
find_project p id s = elim (lookup id s.projects) [
  | none ↦ err (fatal "project_not_found")
  | some project ↦ if is_reachable p project then ok (some id) else err (fatal "project_not_found")
]

unfoldable pub route_project : Principal → String → Fields → Store → Dispatched (Option String)
route_project p tool args s =
    if needs_no_project tool args
    then ok none
    else if text_field "project_id" args == ""
    then err (fatal "invalid_request")
    else find_project p (text_field "project_id" args) s

unfoldable pub lookup_route :
    Principal → String → Fields → Store → Dispatched (Device × Option String)
lookup_route p tool args s =
    find_device p s >>= λ d. route_project p tool args s >>= λ project. ok (d, project)

unfoldable pub seen_recently : ℕ → ℕ → Option ℕ → Bool
seen_recently now offline_after none = false
seen_recently now offline_after (some t) = leb (now - t) offline_after

unfoldable pub is_connected : ℕ → ℕ → Device → Bool
is_connected now offline_after d =
    is_online d.status && seen_recently now offline_after d.last_seen_at
