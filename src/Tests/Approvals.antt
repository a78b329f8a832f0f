-- ===== src/Tests/Approvals.antt =====
-- Approvals: a patch allowed once, one that a security event voids, and a session grant in use.
use codito_mcp.Text.{codes}
use codito_mcp.Common.{
  String, ◌<◌, ◌≡◌, refl, ◌⊎◌, true, false, none, some, List, [], ◌∷◌, arith, ok, nat_Eq, list_Eq,
  option_Eq, string_Eq, any, ◌≢◌,
}
use codito_mcp.Approvals.Types.{Subject, ApprovalRequest, Manager, write, allow_once}
use codito_mcp.Approvals.Grants.{has_session_grant, given_within, uses, uses-session_max}
use codito_mcp.Approvals.Saved.{Options, saved_permission, allowed}
use codito_mcp.Approvals.Request.{Times, Prompt, decided, request_program}
use codito_mcp.Approvals.Revocation.{invalidate_pending, manager_revoke_reads}
use codito_mcp.Approvals.Forgotten.{manager_revoke_reads-asks}
use codito_mcp.Approvals.Outcome.{Grounds, request-Grounds, request-invalidated}

abbrev caller : Subject
caller = record {
  account_id = "account";
  grant_id = "grant";
  link_id = "link";
  device_id = "device";
  project_id = "project";
  capability = "files:write";
  action_digest = "digest";
  connection_epoch = 2;
}

abbrev patch_request : ApprovalRequest
patch_request = record {
  request_id = "approval_1";
  subject = caller;
  project_title = [];
  deadline_at = 100;
  deadline_aware = true;
  risk = write;
  summary = [];
  command = none;
  patch = some (codes "*** Begin Patch");
  working_directory = none;
  environment_differences = none;
  requested_network = false;
  requested_external_paths = [];
  session_eligible = false;
  persistent_read_eligible = false;
  persistent_shell_eligible = false;
  persistent_screen_eligible = false;
}

abbrev granted : Manager
granted = record {
  database = none;
  grants = record { subject = caller; created_at = 5; last_used_at = 5 } ∷ [];
  security_generation = 0;
}

abbrev times : Times
times = record { entered = 10; checked = 11; asking = 12; answered = 20; stored = 21 }

abbrev for_session : Options
for_session = record {
  session_eligible = true;
  read_scope = none;
  shell_scope = none;
  screen_scope = none;
  reuse_shell_permission = true;
}

abbrev parts : List String → String
parts [] = ""
parts (p ∷ ps) = p

abbrev allow : Prompt
allow r m = (decided allow_once, m)

abbrev event : Prompt
event r m = (decided allow_once, invalidate_pending m)

abbrev no_grants : Manager
no_grants = record granted { grants = [] }

request-Grounds_example :
    (times.entered < patch_request.deadline_at)
    × Grounds parts allow patch_request for_session times no_grants
unfolding request_program
request-Grounds_example = request-Grounds parts allow patch_request for_session times no_grants refl

request-invalidated_example :
    (saved_permission parts patch_request for_session none ≡ ok allowed)
    ⊎ ((true ≡ true) × ((has_session_grant caller 11 granted).0 ≡ true))
unfolding request_program invalidate_pending
request-invalidated_example =
    request-invalidated parts event patch_request for_session times granted
      (λ r m. λ e. omega (arith, e)) refl

uses-session_max_example : any (given_within caller 600000010) granted.grants ≡ true
unfolding request_program uses
uses-session_max_example = uses-session_max caller 600000010 ((caller, 600000000) ∷ []) granted refl

abbrev reader : Manager
reader = record granted {
  database = some (record {
    reads =
        (
          "account",
          record {
            scope_path = "C:/a";
            root_identity = "id";
            account_id = "account";
            link_id = "link";
            created_at = 1;
          },
        )
        ∷ [];
    shells = [];
    screens = [];
  });
}

abbrev to_read : Options
to_read = record for_session { session_eligible = false; read_scope = some ("C:/a", "id") }

manager_revoke_reads-asks_example :
    (saved_permission parts patch_request to_read (manager_revoke_reads reader).1.database
      ≢ ok allowed)
    × ((manager_revoke_reads reader).1.security_generation ≡ 1)
manager_revoke_reads-asks_example =
    manager_revoke_reads-asks parts patch_request to_read reader refl refl
