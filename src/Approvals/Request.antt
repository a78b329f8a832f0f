-- ===== src/Approvals/Request.antt =====
-- `ApprovalManager.request`, `authorize_shell` and `authorize_patch`.
use codito_mcp.Common.{
  ℕ, String, Bool, true, false, not, ◌||◌, Option, none, some, List, if◌then◌else◌, ok, err, ◌>>◌,
  raise_if, ◌==◌, nat_Eq, list_Eq, option_Eq, string_Eq, is_some, leb,
}
use codito_mcp.Errors.{
  plain, approval_denied, approval_expired, invalid_approval, sandbox_unavailable, Raises,
}
use codito_mcp.Models.{ProjectMode, isolated, full_access}
use codito_mcp.Db.Permissions.{
  Permissions, save_read_permission, save_shell_permission, save_screen_permission,
}
use codito_mcp.Approvals.Saved.{Options, Saved, allowed, ask, saved_permission}
use codito_mcp.Approvals.Types.{
  Decision, deny, allow_once, allow_session, allow_always_read, allow_always_shell,
  allow_always_screen, unrecognized, is_read, is_native, Subject, ApprovalRequest, Manager,
}
use codito_mcp.Approvals.Grants.{has_session_grant, add_session_grant}

-- the readings of the clock, in the order they are taken
pub record Times : Type 0 where
  pub entered : ℕ
  pub checked : ℕ
  pub asking : ℕ
  pub answered : ℕ
  pub stored : ℕ

-- what `asyncio.wait_for` gives
pub data Answer : Type 0 where
  decided : Decision → Answer
  timed_out : Answer

abbrev pub Prompt : Type 0
Prompt = ApprovalRequest → Manager → Answer × Manager

unfoldable pub is_late : ℕ → ApprovalRequest → Bool
is_late now r = not r.deadline_aware || leb r.deadline_at now

unfoldable pub ensure_before_deadline : ApprovalRequest → ℕ → Raises (Unit {0})
ensure_before_deadline r now = raise_if (is_late now r) (plain approval_expired)

-- `replace(request, ...)`
unfoldable pub shown : ApprovalRequest → Options → ApprovalRequest
shown r o = record r {
  session_eligible = o.session_eligible;
  persistent_read_eligible = is_some o.read_scope;
  persistent_shell_eligible = is_some o.shell_scope;
  persistent_screen_eligible = is_some o.screen_scope;
}

abbrev pub refuse : Manager → Raises (Unit {0}) × Manager
refuse m = (err (plain invalid_approval), m)

-- Saves a permission, where there is a scope to save and a database to save it in.
unfoldable pub save_in {ℓ} :
    {A : Type ℓ}
    → Option A
    → (A → Permissions → Permissions)
    → Manager
    → Raises (Unit {0}) × Manager
save_in none f m = refuse m
save_in (some scope) f m = elim m.database [
  | none ↦ refuse m
  | some p ↦ (ok tt, record m { database = some (f scope p) })
]

unfoldable pub decide :
    Decision → ApprovalRequest → Options → String → ℕ → Manager → Raises (Unit {0}) × Manager
decide deny r o key now m = (err (plain approval_denied), m)
decide allow_once r o key now m = (ok tt, m)
decide allow_session r o key now m =
    if o.session_eligible then (ok tt, add_session_grant r.subject now m) else refuse m
decide allow_always_read r o key now m =
    save_in o.read_scope
      (λ s. save_read_permission key s.0 s.1 r.subject.account_id r.subject.link_id now) m
decide allow_always_shell r o key now m =
    save_in o.shell_scope
      (λ s. save_shell_permission key s.0 s.1 r.subject.account_id r.subject.link_id now) m
decide allow_always_screen r o key now m =
    save_in o.screen_scope
      (λ s. save_screen_permission key s.0 s.1.0 s.1.1 r.subject.account_id r.subject.link_id now) m
decide unrecognized r o key now m = refuse m

-- what follows the prompt
unfoldable pub conclude :
    Answer → ApprovalRequest → Options → String → Times → ℕ → Manager → Raises (Unit {0}) × Manager
conclude timed_out r o key t generation m = (err (plain approval_expired), m)
conclude (decided d) r o key t generation m =
    if is_late t.answered r || not (generation == m.security_generation)
    then (err (plain approval_expired), m)
    else decide d r o key t.stored m

unfoldable pub ask_user :
    Prompt → ApprovalRequest → Options → String → Times → Manager → Raises (Unit {0}) × Manager
ask_user prompt r o key t m =
    if leb r.deadline_at t.asking
    then (err (plain approval_expired), m)
    else let asked = prompt (shown r o) m in
      conclude asked.0 r o key t m.security_generation asked.1

module _ (digest : List String → String) where
  unfoldable pub request :
      Prompt → ApprovalRequest → Options → Times → Manager → Raises (Unit {0}) × Manager
  request prompt r o t m =
      elim (ensure_before_deadline r t.entered >> saved_permission digest r o m.database) [
        | err e ↦ (err e, m)
        | ok allowed ↦ (ok tt, m)
        | ok (ask key) ↦
            let held = has_session_grant r.subject t.checked m in
            if not o.session_eligible
            then ask_user prompt r o key t m
            else if held.0
            then (ok tt, held.1)
            else ask_user prompt r o key t held.1
      ]

  abbrev no_options : Options
  no_options = record {
    session_eligible = false;
    read_scope = none;
    shell_scope = none;
    screen_scope = none;
    reuse_shell_permission = true;
  }

  unfoldable pub authorize_shell :
      ProjectMode → Prompt → ApprovalRequest → Times → Manager → Raises (Unit {0}) × Manager
  authorize_shell isolated prompt r t m = (err (plain sandbox_unavailable), m)
  authorize_shell full_access prompt r t m = (ok tt, m)
  authorize_shell _ prompt r t m = request prompt r no_options t m

  unfoldable pub authorize_patch :
      Bool → Prompt → ApprovalRequest → Times → Manager → Raises (Unit {0}) × Manager
  authorize_patch contains_delete prompt r t m =
      if contains_delete then request prompt r no_options t m else (ok tt, m)

unfoldable pub request_program : Unit {0}
unfolding request ensure_before_deadline is_late saved_permission
    codito_mcp.Approvals.Saved.screen_stage codito_mcp.Approvals.Saved.shell_stage
    codito_mcp.Approvals.Saved.read_stage codito_mcp.Approvals.Saved.screen_allowed
    codito_mcp.Approvals.Saved.shell_allowed codito_mcp.Approvals.Saved.read_allowed ask_user
    conclude decide shown save_in codito_mcp.Approvals.Grants.has_session_grant
    codito_mcp.Approvals.Grants.use_grant codito_mcp.Approvals.Grants.prune
    codito_mcp.Approvals.Grants.is_live codito_mcp.Approvals.Types.subject_eq
request_program = tt
