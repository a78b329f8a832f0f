-- ===== src/Models.antt =====
-- agent/src/codito_agent/models.py.
use native.Mathlib.Omega.{arith}
use codito_mcp.Common.{
  String, ◌≡◌, refl, ◌↔◌, Bool, true, false, arith, nat_Eq, list_Eq, option_Eq, string_Eq, Eq,
}
use codito_mcp.Text.{Text}

pub data ProjectMode : Type 0 where
  isolated native_approval native_trusted native_project full_access : ProjectMode

pub record Project : Type 0 where
  pub project_id : String
  pub title : Text
  pub root : Text
  pub root_fingerprint : String
  pub mode : ProjectMode
  pub enabled : Bool

pub data OperationState : Type 0 where
  received running waiting_approval succeeded failed denied cancelled outcome_unknown :
      OperationState

-- `TERMINAL_OPERATION_STATES`
unfoldable pub is_terminal : OperationState → Bool
is_terminal succeeded = true
is_terminal failed = true
is_terminal denied = true
is_terminal cancelled = true
is_terminal outcome_unknown = true
is_terminal _ = false

pub OperationState-discrete : Discrete OperationState
OperationState-discrete = hlevel

unfoldable pub state_eq : OperationState → OperationState → Bool
unfolding OperationState-discrete
state_eq a b = elim (OperationState-discrete a b) [ yes _ ↦ true | no _ ↦ false ]

pub state_eq_iff : (a b : OperationState) → (state_eq a b ≡ true) ↔ (a ≡ b)
unfolding state_eq
state_eq_iff a b =
    elim (OperationState-discrete a b)
      as (λ d. ((elim d [ yes _ ↦ true | no _ ↦ false ]) ≡ true) ↔ (a ≡ b)) [
        | yes e ↦ (λ _. e, λ _. refl)
        | no n ↦ (λ h. absurd (ground arith), λ e. absurd (n e))
      ]

instance abbrev pub state_Eq : Eq OperationState
state_Eq = record { beq = state_eq; beq_iff = state_eq_iff }
