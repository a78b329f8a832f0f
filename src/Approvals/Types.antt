-- ===== src/Approvals/Types.antt =====
-- The data of agent/src/codito_agent/approvals.py.
use codito_mcp.Text.{Text}
use codito_mcp.Common.{
  ℕ, String, ◌≡◌, sym, ap, ◌∙◌, ◌↔◌, Bool, true, false, ◌&&◌, Option, List, arith, ◌==◌, nat_Eq,
  list_Eq, option_Eq, string_Eq, eq_self,
}
use codito_mcp.Db.Json.{Json, Fields}
use codito_mcp.Db.Permissions.{Permissions}

pub data Decision : Type 0 where
  deny allow_once allow_session allow_always_read allow_always_shell allow_always_screen : Decision
  unrecognized : Decision

pub Decision-discrete : Discrete Decision
Decision-discrete = hlevel

pub data Risk : Type 0 where
  read write delete native_execution external_access : Risk

unfoldable pub is_read : Risk → Bool
is_read read = true
is_read _ = false

unfoldable pub is_native : Risk → Bool
is_native native_execution = true
is_native _ = false

-- who asks for what: what a session grant is compared by
pub record Subject : Type 0 where
  pub account_id : String
  pub grant_id : String
  pub link_id : String
  pub device_id : String
  pub project_id : String
  pub capability : String
  pub action_digest : String
  pub connection_epoch : ℕ

-- `deadline_aware` says that `deadline_at` has a time zone.
pub record ApprovalRequest : Type 0 where
  pub request_id : String
  pub subject : Subject
  pub project_title : Text
  pub deadline_at : ℕ
  pub deadline_aware : Bool
  pub risk : Risk
  pub summary : Text
  pub command : Option Json
  pub patch : Option Text
  pub working_directory : Option Text
  pub environment_differences : Option Fields
  pub requested_network : Bool
  pub requested_external_paths : List String
  pub session_eligible : Bool
  pub persistent_read_eligible : Bool
  pub persistent_shell_eligible : Bool
  pub persistent_screen_eligible : Bool

pub record SessionGrant : Type 0 where
  pub subject : Subject
  pub created_at : ℕ
  pub last_used_at : ℕ

-- `database` is `None` where no permission can be saved.
pub record Manager : Type 0 where
  pub database : Option Permissions
  pub grants : List SessionGrant
  pub security_generation : ℕ

unfoldable pub subject_eq : Subject → Subject → Bool
subject_eq a b =
    a.account_id == b.account_id
    && a.grant_id == b.grant_id
    && a.link_id == b.link_id
    && a.device_id == b.device_id
    && a.project_id == b.project_id
    && a.capability == b.capability
    && a.action_digest == b.action_digest
    && a.connection_epoch == b.connection_epoch

subject_eq_self : (a : Subject) → subject_eq a a ≡ true
unfolding subject_eq
subject_eq_self a = ground (
  arith,
  eq_self a.account_id,
  eq_self a.grant_id,
  eq_self a.link_id,
  eq_self a.device_id,
  eq_self a.project_id,
  eq_self a.capability,
  eq_self a.action_digest,
  eq_self a.connection_epoch,
)

pub subject_eq_iff : (a b : Subject) → (subject_eq a b ≡ true) ↔ (a ≡ b)
unfolding subject_eq
subject_eq_iff a b = (
  λ h. ground (
    arith,
    string_Eq.beq_iff a.account_id b.account_id,
    string_Eq.beq_iff a.grant_id b.grant_id,
    string_Eq.beq_iff a.link_id b.link_id,
    string_Eq.beq_iff a.device_id b.device_id,
    string_Eq.beq_iff a.project_id b.project_id,
    string_Eq.beq_iff a.capability b.capability,
    string_Eq.beq_iff a.action_digest b.action_digest,
    nat_Eq.beq_iff a.connection_epoch b.connection_epoch,
  ),
  λ e. ap (subject_eq a) (sym e) ∙ subject_eq_self a,
)
