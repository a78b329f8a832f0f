-- ===== src/Errors.antt =====
-- agent/src/codito_agent/errors.py: `AgentError`. The message is for a human reader and is not
-- modelled; `details` keeps what the tests and the relay read, the conflicts and the paths.
-- `python_error` is an exception of Python itself (`UnicodeEncodeError`, `OSError`, `KeyError`).
use codito_mcp.Common.{ℕ, Bool, false, List, [], Option, Result}
use codito_mcp.Text.{Text}

pub data Code : Type 0 where
  invalid_patch patch_conflict unsupported_encoding invalid_request invalid_path : Code
  file_too_large project_disabled project_not_found project_exists project_busy : Code
  idempotency_conflict outcome_unknown recovery_failed invalid_project : Code
  project_identity_changed project_unavailable path_not_found unsafe_path : Code
  unsafe_hardlink not_a_file not_a_directory path_race read_failed : Code
  approval_denied approval_expired invalid_approval invalid_permission sandbox_unavailable : Code
  operation_conflict operation_not_found invalid_state invalid_setting protocol_error : Code
  binding_mismatch request_not_found request_expired : Code
  queue_full deadline_exceeded action_digest_mismatch unauthorized stale_connection : Code
  internal_error : Code
  python_error : Code

pub data Reason : Type 0 where
  not_found ambiguous already_exists base_hash_mismatch path_changed : Reason

-- one entry of `details`
pub data Detail : Type 0 where
  conflict : Text → Option ℕ → Reason → Detail
  missing : Text → Detail
  unexpected : Text → Detail
  path : Text → Detail

pub record AgentError : Type 0 where
  pub code : Code
  pub details : List Detail
  pub retryable : Bool

abbrev pub plain : Code → AgentError
plain c = record { code = c; details = []; retryable = false }

abbrev pub detailed : Code → List Detail → AgentError
detailed c ds = record { code = c; details = ds; retryable = false }

-- a call that may raise an `AgentError`
abbrev pub Raises {ℓ} : Type ℓ → Type ℓ
Raises A = Result AgentError A
