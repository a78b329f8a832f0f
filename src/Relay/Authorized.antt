-- ===== src/Relay/Authorized.antt =====
-- What a call that gets anywhere was allowed to do, and what becomes of one that may have run.
use mathlib.Core.List.{[]}
use mathlib.Core.Path.{subst}
use codito_mcp.Common.{
  String, ◌≡◌, refl, ap, ◌∙◌, inl, inr, Bool, true, false, not, ◌||◌, Option, some, List, arith,
  if◌then◌else◌, ok, err, ◌>>=◌, ◌>>◌, raise_if, ◌==◌, nat_Eq, list_Eq, option_Eq, string_Eq,
  Result-cases, any, >>=-eq-ok, eq_self, ℕ, ◌∷◌, All, none, [], Option-cases, ◌⊎◌, Bool-cases,
}
use codito_mcp.Common.Dict.{lookup}
use codito_mcp.Relay.Needs.{Needs, Has, required_scopes-Needs, holds_all-Has, with_project-Has}
use codito_mcp.Relay.Routed.{
  OwnDevice, Target, IsLocal, IsSeen, lookup_route-ok, is_local-IsLocal, is_connected-IsSeen,
}
use codito_mcp.Db.Json.{Fields, get_field}
use codito_mcp.Relay.Types.{
  ToolError, fatal, Principal, Device, Operation, Store, outcome_unknown, in_progress, text_field,
}
use codito_mcp.Relay.Scopes.{
  required_scopes, with_project, holds_all, is_replay_unsafe, validate_arguments, has_field,
  forbidden,
}
use codito_mcp.Relay.Results.{validate_for_request}
use codito_mcp.Relay.Route.{lookup_route, is_connected}
use codito_mcp.Relay.Delivery.{mark_delivery_failure, lookup-update_where, failure_status}
use codito_mcp.Relay.Dispatch.{
  Env, Receipt, Transported, answered, refused, broken, authorize, admitted, dispatch_tool,
  is_local, settle, fail, mapped_refusal, mapped_breakage, mapped_invalid,
}

-- what only the local user may say
abbrev local_only : List String
local_only = "approved" ∷ "trusted" ∷ "absolute_path" ∷ "project_path" ∷ "root_path" ∷ []

-- The call may be made: what it says, what its principal holds, and where it goes.
pub record Permitted (env : Env) (p : Principal) (tool : String) (raw : Fields) (s : Store)
    : Type 0 where
  pub arguments : Fields
  pub device : Device
  pub no_forbidden : All (λ key. get_field key raw ≡ none) local_only
  pub accepted : env.schema tool raw ≡ ok arguments
  pub held :
      (scope : String) → Needs tool (text_field "operation" arguments) scope → Has p.scopes scope
  pub held_project :
      (text_field "project_id" arguments == "") ≡ false → Has p.scopes "projects:read"
  pub own : OwnDevice p device s
  pub target : Target p tool arguments s
  pub reachable : IsLocal tool arguments ⊎ IsSeen env.now env.offline_after device

-- what `admitted` checks, for the arguments and the route that it gives
record Checked (env : Env) (p : Principal) (tool : String) (raw : Fields) (s : Store)
    (x : Fields × (Device × Option String)) : Type 0 where
  scopes : List String
  no_forbidden : any (has_field raw) forbidden ≡ false
  accepted : env.schema tool raw ≡ ok x.0
  required : required_scopes tool (text_field "operation" x.0) ≡ ok scopes
  held : holds_all p (with_project x.0 scopes) ≡ true
  routed : lookup_route p tool x.0 s ≡ ok x.1

raise_if-ok : (b : Bool) (e : ToolError) → raise_if b e ≡ ok tt → b ≡ false
raise_if-ok true e h = absurd (ground arith)
raise_if-ok false e h = refl

admitted-Checked :
    (env : Env) (p : Principal) (tool : String) (raw : Fields) (s : Store)
    (x : Fields × (Device × Option String))
    → admitted env p tool raw s ≡ ok x
    → Checked env p tool raw s x
unfolding admitted validate_arguments authorize
admitted-Checked env p tool raw s x h =
    let (args, valid, later) =
      >>=-eq-ok (validate_arguments env.schema tool raw)
        (λ args. authorize p tool args >> lookup_route p tool args s >>= λ route. ok (args, route))
        h in
    let (route, inner, made) =
      >>=-eq-ok (authorize p tool args >> lookup_route p tool args s) (λ route. ok (args, route))
        later in
    let (_, may, routed) =
      >>=-eq-ok (authorize p tool args) (λ _. lookup_route p tool args s) inner in
    let (_, clean, accepted) =
      >>=-eq-ok (raise_if (any (has_field raw) forbidden) (fatal "invalid_request"))
        (λ _. env.schema tool raw) valid in
    let (scopes, required, holds) =
      >>=-eq-ok (required_scopes tool (text_field "operation" args))
        (λ scopes.
          raise_if (not (holds_all p (with_project args scopes))) (fatal "insufficient_scope"))
        may in
    let no =
      raise_if-ok (not (holds_all p (with_project args scopes))) (fatal "insufficient_scope")
        holds in
    let e : (args, route) ≡ x = cc in
    subst (Checked env p tool raw s) e (record {
      scopes = scopes;
      no_forbidden = raise_if-ok (any (has_field raw) forbidden) (fatal "invalid_request") clean;
      accepted = accepted;
      required = required;
      held = ground arith;
      routed = routed;
    })

no_field : (raw : Fields) (key : String) → has_field raw key ≡ false → get_field key raw ≡ none
unfolding has_field
no_field raw key h = elim (Option-cases (get_field key raw)) [
  | inl none_there ↦ none_there
  | inr (v, there) ↦ absurd (let q = rw (there, has_field) at h in ground arith)
]

any-All :
    (raw : Fields) (keys : List String)
    → any (has_field raw) keys ≡ false
    → All (λ key. get_field key raw ≡ none) keys
any-All raw [] h = tt
any-All raw (key ∷ keys) h = (no_field raw key (ground arith), any-All raw keys (ground arith))

-- the project's scope, where a call names a project
with_project-project :
    (args : Fields) (scopes : List String)
    → (text_field "project_id" args == "") ≡ false
    → Has (with_project args scopes) "projects:read"
unfolding with_project
with_project-project args scopes named = rw named (inl refl)

is_reachable-cases :
    (tool : String) (args : Fields) (now offline_after : ℕ) (device : Device)
    → (is_local tool args || is_connected now offline_after device) ≡ true
    → IsLocal tool args ⊎ IsSeen now offline_after device
is_reachable-cases tool args now offline_after device h = elim (Bool-cases (is_local tool args)) [
  | inl here ↦ inl (is_local-IsLocal tool args here)
  | inr away ↦ inr (is_connected-IsSeen now offline_after device (rw away at h))
]

-- A call that gives a result was permitted: no field of the caller's says what only the local user
-- may say; the principal has every scope that the tool's operation needs by the table of scopes, and
-- the one for projects where a project is named; the device that it names is there, of its own
-- account and not revoked; the call is one that names no project, or its project is there, available,
-- of the same account and on that device; and the device is online and was seen lately, unless the
-- relay answers the call itself.
pub dispatch-Permitted :
    (env : Env) (p : Principal) (tool : String) (raw : Fields) (s : Store) (receipt : Receipt)
    → (dispatch_tool env p tool raw s).0 ≡ ok receipt
    → Permitted env p tool raw s
unfolding dispatch_tool
dispatch-Permitted env p tool raw s receipt h = elim (Result-cases (admitted env p tool raw s)) [
  | inr (e, stopped) ↦ absurd (let q = rw (stopped, dispatch_tool) at h in ground arith)
  | inl ((args, (device, project)), passed) ↦
      let c = admitted-Checked env p tool raw s (args, (device, project)) passed in
      let q = rw (passed, dispatch_tool) at h in
      let all = with_project args c.scopes in
      let (own, target) = lookup_route-ok p tool args device project s c.routed in
      record {
        arguments = args;
        device = device;
        no_forbidden = any-All raw local_only c.no_forbidden;
        accepted = c.accepted;
        held = λ scope needs. holds_all-Has p all scope c.held (
            with_project-Has args c.scopes scope (required_scopes-Needs c.scopes needs c.required));
        held_project = λ named.
            holds_all-Has p all "projects:read" c.held (with_project-project args c.scopes named);
        own = own;
        target = target;
        reachable =
            is_reachable-cases tool args env.now env.offline_after device (ground (arith, q));
      }
]

uncertain-row :
    (id : String) (s : Store) (row : Operation)
    → lookup id s.operations ≡ some row
    → in_progress row.status ≡ true
    → lookup id (mark_delivery_failure id (fatal "outcome_unknown") s).operations
      ≡ some (record row { status = outcome_unknown; error_code = "outcome_unknown" })
unfolding mark_delivery_failure failure_status
uncertain-row id s row found live =
    lookup-update_where id id in_progress
      (λ r. record r { status = outcome_unknown; error_code = "outcome_unknown" }) s.operations row
      found
    ∙ ap
        (λ b. some (
          if b
          then record row { status = outcome_unknown; error_code = "outcome_unknown" }
          else row))
        {y = true} (ground (arith, eq_self id))

-- The tool may have run, and its result is lost.
unfoldable pub is_lost : Env → String → Fields → Transported → Bool
is_lost env tool args (refused e) = not (e.code == "device_offline")
is_lost env tool args broken = true
is_lost env tool args (answered result) =
    elim (validate_for_request env.contracts tool args result) [ ok _ ↦ false | err _ ↦ true ]

settle-lost :
    (env : Env) (tool : String) (args : Fields) (id : String) (sent : Transported) (s : Store)
    → is_replay_unsafe tool args ≡ true
    → is_lost env tool args sent ≡ true
    → settle env tool args id sent s
      ≡ (err (fatal "outcome_unknown"), mark_delivery_failure id (fatal "outcome_unknown") s)
unfolding settle is_lost mapped_refusal mapped_breakage mapped_invalid
settle-lost env tool args id (refused e) s unsafe lost = ap (λ e. fail id e s) (ground arith)
settle-lost env tool args id broken s unsafe lost = ap (λ e. fail id e s) (ground arith)
settle-lost env tool args id (answered result) s unsafe lost =
    elim (Result-cases (validate_for_request env.contracts tool args result)) [
      | inl (v, valid) ↦ absurd (let q = rw (valid, is_lost) at lost in ground arith)
      | inr (e, invalid) ↦ rw (invalid, settle) (ap (λ e. fail id e s) (ground arith))
    ]

-- Where a call that must not be repeated loses its answer, in whichever way, the caller is told
-- that the outcome is unknown and not to retry, and an operation in progress is recorded so.
pub settle-outcome_unknown :
    (env : Env) (tool : String) (args : Fields) (id : String) (sent : Transported) (s : Store)
    (row : Operation)
    → is_replay_unsafe tool args ≡ true
    → is_lost env tool args sent ≡ true
    → lookup id s.operations ≡ some row
    → in_progress row.status ≡ true
    → ((settle env tool args id sent s).0 ≡ err (fatal "outcome_unknown"))
      × (lookup id (settle env tool args id sent s).1.operations
          ≡ some (record row { status = outcome_unknown; error_code = "outcome_unknown" }))
settle-outcome_unknown env tool args id sent s row unsafe lost found live =
    let e = settle-lost env tool args id sent s unsafe lost in
    (ap (λ r. r.0) e, ap (λ r. lookup id r.1.operations) e ∙ uncertain-row id s row found live)
