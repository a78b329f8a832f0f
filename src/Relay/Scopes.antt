-- ===== src/Relay/Scopes.antt =====
-- `_required_scopes`, `_is_replay_unsafe` and the fields that no caller may send.
use codito_mcp.Common.{
  String, Bool, ◌&&◌, ◌||◌, List, [], ◌∷◌, if◌then◌else◌, ok, err, ◌>>◌, raise_if, ◌==◌, nat_Eq,
  list_Eq, option_Eq, string_Eq, all, any, is_some,
}
use codito_mcp.Db.Json.{Fields, get_field}
use codito_mcp.Relay.Types.{fatal, Dispatched, Principal, text_field}

unfoldable pub frontend_scopes : String → List String
frontend_scopes operation =
    if operation == "session_start"
    then "projects:read" ∷ "frontend:interact" ∷ "shell:execute" ∷ []
    else if operation == "snapshot" || operation == "inspect"
    then "projects:read" ∷ "frontend:read" ∷ []
    else if operation == "source"
    then "projects:read" ∷ "frontend:read" ∷ "files:read" ∷ []
    else if operation == "act" || operation == "session_stop"
    then "projects:read" ∷ "frontend:interact" ∷ []
    else "projects:read" ∷ []

unfoldable pub code_scopes : String → List String
code_scopes operation =
    if operation == "code_intelligence_status" || operation == "code_workspace_summary"
    then "projects:read" ∷ "files:read" ∷ []
    else "projects:read" ∷ "files:read" ∷ "shell:execute" ∷ []

unfoldable pub required_scopes : String → String → Dispatched (List String)
required_scopes tool operation =
    if tool == "device_desktop"
    then ok ("shell:execute" ∷ [])
    else if tool == "device_screenshot"
    then ok ("screen:read" ∷ [])
    else if tool == "device_read"
    then ok ("files:read" ∷ [])
    else if tool == "project_read"
    then ok (
        if operation == "list_projects"
        then "projects:read" ∷ []
        else "projects:read" ∷ "files:read" ∷ [])
    else if tool == "project_apply_patch"
    then ok ("projects:read" ∷ "files:read" ∷ "files:write" ∷ [])
    else if tool == "project_shell"
    then ok ("projects:read" ∷ "shell:execute" ∷ [])
    else if tool == "project_manage"
    then ok (
        if operation == "get_projects"
        then "projects:read" ∷ []
        else "projects:read" ∷ "projects:write" ∷ [])
    else if tool == "project_code"
    then ok (code_scopes operation)
    else if tool == "project_frontend"
    then ok (frontend_scopes operation)
    else err (fatal "unknown_tool")

-- `required_scopes |= {"projects:read"}`
unfoldable pub with_project : Fields → List String → List String
with_project args scopes =
    if text_field "project_id" args == "" then scopes else "projects:read" ∷ scopes

-- `principal.require(scope)` for each
unfoldable pub holds_all : Principal → List String → Bool
holds_all p scopes = all (λ s. any (λ h. h == s) p.scopes) scopes

unfoldable pub is_replay_unsafe : String → Fields → Bool
is_replay_unsafe tool args =
    tool == "device_desktop"
    || (tool == "project_shell" && text_field "action" args == "start")
    || (tool == "project_frontend"
        && (text_field "operation" args == "session_start" || text_field "operation" args == "act"))

unfoldable pub has_field : Fields → String → Bool
has_field args key = is_some (get_field key args)

-- what only the local user may say
abbrev pub forbidden : List String
forbidden = "approved" ∷ "trusted" ∷ "absolute_path" ∷ "project_path" ∷ "root_path" ∷ []

-- The tool's own schema belongs to packages/protocol.
unfoldable pub validate_arguments :
    (String → Fields → Dispatched Fields) → String → Fields → Dispatched Fields
validate_arguments schema tool args =
    raise_if (any (has_field args) forbidden) (fatal "invalid_request") >> schema tool args
