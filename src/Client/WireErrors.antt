-- ===== src/Client/WireErrors.antt =====
-- agent/src/codito_agent/wire_errors.py: how an error of the agent goes to the relay.
use codito_mcp.Common.{
  ℕ, zero, suc, String, Bool, true, false, ◌&&◌, ◌||◌, Option, none, some, [], ◌∷◌, if◌then◌else◌,
  ◌==◌, nat_Eq, list_Eq, option_Eq, string_Eq, leb,
}
use Prim.Native.String.{String}
use codito_mcp.Common.Dict.{Dict, lookup}
use codito_mcp.Text.{Text, codes, starts_with}
use codito_mcp.Db.Json.{
  Json, Items, Fields, null, bool, num, str, arr, obj, end_items, item, end_fields, field,
}
use codito_mcp.Db.Projects.{is_space}
use codito_mcp.Relay.Results.{set_field}

-- `LOCAL_ERROR_MAP`
abbrev pub local_error_map : Dict String String
local_error_map =
    ("action_digest_mismatch", "invalid_request")
    ∷ ("already_enrolled", "invalid_request")
    ∷ ("approval_denied", "approval_denied")
    ∷ ("approval_expired", "approval_expired")
    ∷ ("binary_file", "encoding_unsupported")
    ∷ ("binding_mismatch", "unauthorized")
    ∷ ("browser_capture_failed", "screenshot_unavailable")
    ∷ ("browser_close_failed", "desktop_unavailable")
    ∷ ("browser_navigation_failed", "desktop_unavailable")
    ∷ ("browser_unavailable", "desktop_unavailable")
    ∷ ("broker_failed", "sandbox_unavailable")
    ∷ ("broker_cleanup_failed", "sandbox_unavailable")
    ∷ ("broker_protocol_error", "sandbox_unavailable")
    ∷ ("broker_unavailable", "sandbox_unavailable")
    ∷ ("confirmation_required", "approval_required")
    ∷ ("capture_too_large", "output_limit_exceeded")
    ∷ ("conflict", "patch_conflict")
    ∷ ("credential_unavailable", "unauthenticated")
    ∷ ("deadline_exceeded", "deadline_exceeded")
    ∷ ("enrollment_required", "unauthenticated")
    ∷ ("dev_server_failed", "shell_not_running")
    ∷ ("dev_server_stop_failed", "shell_not_running")
    ∷ ("dev_server_timeout", "deadline_exceeded")
    ∷ ("reenrollment_required", "unauthenticated")
    ∷ ("file_too_large", "file_too_large")
    ∷ ("element_not_found", "resource_mismatch")
    ∷ ("element_not_interactable", "invalid_request")
    ∷ ("frontend_action_failed", "desktop_unavailable")
    ∷ ("frontend_config_required", "invalid_request")
    ∷ ("frontend_port_in_use", "invalid_request")
    ∷ ("frontend_session_closed", "resource_mismatch")
    ∷ ("frontend_session_exists", "invalid_request")
    ∷ ("frontend_session_expired", "resource_mismatch")
    ∷ ("frontend_session_not_found", "resource_mismatch")
    ∷ ("idempotency_conflict", "idempotency_conflict")
    ∷ ("internal_error", "internal_error")
    ∷ ("migration_failed", "internal_error")
    ∷ ("screenshot_unavailable", "screenshot_unavailable")
    ∷ ("desktop_unavailable", "desktop_unavailable")
    ∷ ("invalid_approval", "approval_denied")
    ∷ ("invalid_config", "internal_error")
    ∷ ("invalid_cursor", "invalid_request")
    ∷ ("invalid_frontend_config", "invalid_request")
    ∷ ("invalid_glob", "invalid_request")
    ∷ ("invalid_ipc_request", "invalid_request")
    ∷ ("invalid_patch", "patch_invalid")
    ∷ ("invalid_path", "path_invalid")
    ∷ ("invalid_permission", "invalid_request")
    ∷ ("invalid_project", "invalid_request")
    ∷ ("invalid_project_root", "path_invalid")
    ∷ ("invalid_request", "invalid_request")
    ∷ ("invalid_release", "internal_error")
    ∷ ("invalid_setting", "internal_error")
    ∷ ("invalid_state", "internal_error")
    ∷ ("ipc_unavailable", "internal_error")
    ∷ ("job_not_found", "shell_not_found")
    ∷ ("login_required", "unauthenticated")
    ∷ ("login_timeout", "unauthenticated")
    ∷ ("not_a_directory", "path_invalid")
    ∷ ("not_a_file", "path_invalid")
    ∷ ("not_enrolled", "unauthenticated")
    ∷ ("navigation_blocked", "unauthorized")
    ∷ ("operation_conflict", "unauthorized")
    ∷ ("operation_not_found", "internal_error")
    ∷ ("outcome_unknown", "outcome_unknown")
    ∷ ("patch_conflict", "patch_conflict")
    ∷ ("path_not_found", "file_not_found")
    ∷ ("path_race", "path_changed")
    ∷ ("project_busy", "rate_limited")
    ∷ ("project_disabled", "project_not_found")
    ∷ ("project_exists", "invalid_request")
    ∷ ("project_identity_changed", "path_changed")
    ∷ ("project_not_found", "project_not_found")
    ∷ ("project_unavailable", "project_not_found")
    ∷ ("protocol_error", "invalid_request")
    ∷ ("queue_full", "queue_full")
    ∷ ("read_failed", "internal_error")
    ∷ ("recovery_failed", "internal_error")
    ∷ ("release_unavailable", "internal_error")
    ∷ ("relay_protocol_error", "internal_error")
    ∷ ("relay_rejected", "unauthorized")
    ∷ ("result_limit", "output_limit_exceeded")
    ∷ ("request_expired", "invalid_request")
    ∷ ("request_not_found", "invalid_request")
    ∷ ("sandbox_policy_denied", "unauthorized")
    ∷ ("sandbox_unavailable", "sandbox_unavailable")
    ∷ ("search_timeout", "deadline_exceeded")
    ∷ ("sensitive_input_blocked", "unauthorized")
    ∷ ("stale_snapshot", "resource_mismatch")
    ∷ ("stale_connection", "unauthorized")
    ∷ ("ticket_expired", "unauthenticated")
    ∷ ("too_many_sessions", "rate_limited")
    ∷ ("unauthorized", "unauthorized")
    ∷ ("unsafe_hardlink", "hardlink_mutation_forbidden")
    ∷ ("unsafe_path", "path_outside_project")
    ∷ ("unsupported_encoding", "encoding_unsupported")
    ∷ ("unsupported_platform", "internal_error")
    ∷ ("update_check_failed", "internal_error")
    ∷ ("update_launch_failed", "internal_error")
    ∷ ("update_not_required", "invalid_request")
    ∷ []

-- `LOCAL_ERROR_MAP.get(code, ErrorCode.INTERNAL_ERROR)`
unfoldable pub wire_code : String → String
wire_code code = elim (lookup code local_error_map) [ none ↦ "internal_error" | some wire ↦ wire ]

-- `value[:n]`
unfoldable pub take_text : ℕ → String → String
take_text zero s = ""
take_text (suc n) String.[] = ""
take_text (suc n) (String.◌∷◌ c s) = String.◌∷◌ c (take_text n s)

unfoldable pub is_letter : ℕ → Bool
is_letter c = leb b'A' c && leb c b'Z' || leb b'a' c && leb c b'z'

-- `[A-Za-z]:[\\/]` at the start of a text
unfoldable pub drive_at : Text → Bool
drive_at (c ∷ d ∷ e ∷ s) = is_letter c && d == b':' && (e == b'\\' || e == b'/')
drive_at s = false

-- `_ABSOLUTE_WINDOWS_PATH.search`, at a position where a match may start or not
unfoldable pub has_drive : Bool → Text → Bool
has_drive here [] = false
has_drive here (c ∷ s) = here && drive_at (c ∷ s) || has_drive (is_space c) s

unfoldable pub is_local_path : Text → Bool
is_local_path s = has_drive true s || starts_with (codes "\\\\") s || starts_with (codes "//") s

unfoldable pub safe_text : String → String
safe_text s = if is_local_path (codes s) then "[local path redacted]" else take_text 1024 s

-- `_safe_details` on JSON values
unfoldable mutual
  pub safe_details : Json → Json
  safe_details (str s) = str (safe_text s)
  safe_details (arr items) = arr (safe_items 64 items)
  safe_details (obj fs) = obj (safe_fields 64 fs end_fields)
  safe_details (bool b) = bool b
  safe_details (num n) = num n
  safe_details null = null

  pub safe_items : ℕ → Items → Items
  safe_items zero items = end_items
  safe_items (suc n) end_items = end_items
  safe_items (suc n) (item v items) = item (safe_details v) (safe_items n items)

  pub safe_fields : ℕ → Fields → Fields → Fields
  safe_fields zero fs kept = kept
  safe_fields (suc n) end_fields kept = kept
  safe_fields (suc n) (field k v fs) kept =
      safe_fields n fs (set_field (take_text 100 k) (safe_details v) kept)

-- an `AgentError` with its message
pub record LocalError : Type 0 where
  pub code : String
  pub message : String
  pub retryable : Bool
  pub details : Fields

-- `error.message[:1024] or "The device operation failed"`
unfoldable pub wire_message : String → String
wire_message message =
    if take_text 1024 message == "" then "The device operation failed" else take_text 1024 message

-- `correlation_id` is left out where it is `None`
unfoldable pub with_correlation : Option String → Fields → Fields
with_correlation none rest = rest
with_correlation (some correlation) rest = field "correlation_id" (str correlation) rest

-- `to_tool_failure(error, correlation_id).model_dump(mode="json", exclude_none=True)`
unfoldable pub to_tool_failure : LocalError → Option String → Fields
to_tool_failure e correlation = field "ok" (bool false) (
    field "text" (str (wire_message e.message)) (
      field "error"
        (obj (
          field "code" (str (wire_code e.code)) (
            field "message" (str (wire_message e.message)) (
              field "retryable" (bool e.retryable) (
                with_correlation correlation
                  (field "details" (safe_details (obj e.details)) end_fields))))))
        end_fields))
