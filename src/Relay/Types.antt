-- ===== src/Relay/Types.antt =====
-- What relay/codito_relay/core/dispatch.py reads of relay/codito_relay/core/models.py and authz.py.
use codito_mcp.Common.{
  ℕ, String, ◌≡◌, sym, ap, ◌∙◌, ◌↔◌, Bool, true, false, ◌&&◌, Option, some, List, arith, Result,
  ◌==◌, nat_Eq, list_Eq, option_Eq, string_Eq, eq_self, option_beq_iff,
}
pub use codito_mcp.Common.Dict.{Dict, lookup}
use codito_mcp.Db.Json.{Json, Fields, get_field, str}

-- `ToolDispatchError` without its message and details
pub record ToolError : Type 0 where
  pub code : String
  pub retryable : Bool

abbrev pub fatal : String → ToolError
fatal c = record { code = c; retryable = false }

abbrev pub transient : String → ToolError
transient c = record { code = c; retryable = true }

abbrev pub Dispatched {ℓ} : Type ℓ → Type ℓ
Dispatched A = Result ToolError A

pub record Principal : Type 0 where
  pub account_id : ℕ
  pub device_id : String
  pub link_id : String
  pub device_link_id : ℕ
  pub oauth_grant_id : String
  pub scopes : List String

pub data DeviceStatus : Type 0 where
  enrolling online offline revoked : DeviceStatus

unfoldable pub is_online : DeviceStatus → Bool
is_online online = true
is_online _ = false

unfoldable pub is_revoked : DeviceStatus → Bool
is_revoked revoked = true
is_revoked _ = false

-- `is_gone` says that `revoked_at` is set.
pub record Device : Type 0 where
  pub account_id : ℕ
  pub status : DeviceStatus
  pub connection_epoch : ℕ
  pub last_seen_at : Option ℕ
  pub is_gone : Bool

-- `available` says that `status` is `Project.Status.AVAILABLE`.
pub record RelayProject : Type 0 where
  pub account_id : ℕ
  pub device_id : String
  pub available : Bool

pub data Status : Type 0 where
  accepted dispatched received running : Status
  succeeded failed cancelled expired outcome_unknown : Status

-- the statuses that `_finish` and `_mark_delivery_failure` may leave, and that fill the queue
unfoldable pub in_progress : Status → Bool
in_progress accepted = true
in_progress dispatched = true
in_progress received = true
in_progress running = true
in_progress _ = false

-- the fields of `idempotency_scope`
pub record Scope : Type 0 where
  pub account_id : ℕ
  pub oauth_grant_id : String
  pub device_link_id : ℕ
  pub device : String
  pub project : Option String
  pub kind : String
  pub idempotency_key : String

unfoldable pub scope_eq : Scope → Scope → Bool
scope_eq a b =
    a.account_id == b.account_id
    && a.oauth_grant_id == b.oauth_grant_id
    && a.device_link_id == b.device_link_id
    && a.device == b.device
    && a.project == b.project
    && a.kind == b.kind
    && a.idempotency_key == b.idempotency_key

scope_eq_self : (a : Scope) → scope_eq a a ≡ true
unfolding scope_eq
scope_eq_self a = ground (
  arith,
  eq_self a.account_id,
  eq_self a.oauth_grant_id,
  eq_self a.device_link_id,
  eq_self a.device,
  eq_self a.project,
  eq_self a.kind,
  eq_self a.idempotency_key,
)

pub scope_eq_iff : (a b : Scope) → (scope_eq a b ≡ true) ↔ (a ≡ b)
unfolding scope_eq
scope_eq_iff a b = (
  λ h. ground (
    arith,
    nat_Eq.beq_iff a.account_id b.account_id,
    string_Eq.beq_iff a.oauth_grant_id b.oauth_grant_id,
    nat_Eq.beq_iff a.device_link_id b.device_link_id,
    string_Eq.beq_iff a.device b.device,
    option_beq_iff a.project b.project,
    string_Eq.beq_iff a.kind b.kind,
    string_Eq.beq_iff a.idempotency_key b.idempotency_key,
  ),
  λ e. ap (scope_eq a) (sym e) ∙ scope_eq_self a,
)

pub record Operation : Type 0 where
  pub scope : Scope
  pub status : Status
  pub connection_epoch : ℕ
  pub action_digest : String
  pub request_digest : String
  pub request_payload : String × Fields
  pub deadline_at : ℕ
  pub error_code : String
  pub result : Option Fields

-- The tables; an audit event is the name of its operation.
pub record Store : Type 0 where
  pub devices : Dict String Device
  pub projects : Dict String RelayProject
  pub operations : Dict String Operation
  pub audit : List String

-- `str(arguments.get(key, ""))` and the truth of `arguments.get(key)`: validated arguments hold
-- texts there, or nothing
unfoldable pub text_of : Option Json → String
text_of (some (str s)) = s
text_of _ = ""

unfoldable pub text_field : String → Fields → String
text_field key fs = text_of (get_field key fs)
