-- ===== src/Client/Once.antt =====
-- The starts of a native action over any turns of a device.
use mathlib.Core.List.{[]}
use codito_mcp.Common.{
  refl, String, ◌≡◌, Bool, true, Option, some, arith, ok, nat_Eq, list_Eq, option_Eq, string_Eq,
  ◌==◌, ◌&&◌, not, false, ap, sym, ◌∙◌, Result-cases, inl, ◌||◌, List, inr, all, ◌≤◌, ◌∷◌,
  Option-cases,
}
use codito_mcp.Common.Dict.{contains}
use codito_mcp.Db.Json.{Fields, get_field}
use codito_mcp.Relay.Results.{dict_of}
use codito_mcp.Relay.Tunnel.Types.{Envelope, MessageKind, operation, heartbeat}
use codito_mcp.Client.Types.{Client, Agent, Setting, Moment, Received}
use codito_mcp.Client.Send.{send_new, send_failure}
use codito_mcp.Client.Receive.{Turn, validate_bindings}
use codito_mcp.Client.Request.{Request, prune_budgets, check_request, text_value, required}
use codito_mcp.Client.Accept.{
  is_uncertain_native_action, receive_operation, receive_kind, receive, ack_of, heartbeat_reply,
  accept_request,
}
use codito_mcp.Client.Work.{outcome, task_done}
use codito_mcp.Client.Machine.{Step, received, begun, handled, done, connected, crashed, step, run}
use codito_mcp.Client.Kept.{count_starts, count-append, plain_turn, emit-Quiet, same-Quiet}
use codito_mcp.Client.Quiet.{completed-Quiet, begin_task-Quiet, receive_ack-Quiet, connect-Quiet}
use codito_mcp.Client.Started.{Tame, accept_request-Tame}

-- The action that an envelope carries must not be repeated, or it carries none.
unfoldable pub native_action : Option String → Option Fields → Bool
native_action (some tool) (some input) = is_uncertain_native_action tool input
native_action _ _ = true

abbrev pub is_native : Envelope → Bool
is_native e =
    native_action (text_value (get_field "tool_name" e.payload))
      (dict_of (get_field "input" e.payload))

-- the request has the action of the envelope
check_request-action :
    (set : Setting) (now : Moment) (e : Envelope) (c : Client) (request : Request)
    → check_request set now e c ≡ ok request
    → (text_value (get_field "tool_name" e.payload) ≡ some request.tool)
      × (dict_of (get_field "input" e.payload) ≡ some request.input)
unfolding check_request required
check_request-action set now e c request h = ground arith

request-safe :
    (set : Setting) (now : Moment) (e : Envelope) (c : Client) (request : Request) (id : String)
    → check_request set now e c ≡ ok request
    → (e.message_id == id && not (is_native e)) ≡ false
    → (e.message_id == id && not (is_uncertain_native_action request.tool request.input)) ≡ false
unfolding native_action
request-safe set now e c request id h safe =
    let (named, given) = check_request-action set now e c request h in
    ap (λ b. e.message_id == id && not b)
      (sym (
        ap (λ o. native_action o (dict_of (get_field "input" e.payload))) named
        ∙ ap (native_action (some request.tool)) given))
    ∙ safe

-- a turn after a change of the client alone
same-Tame :
    (id : String) (a b : Agent) (t : Turn)
    → b.operations ≡ a.operations
    → Tame id b (plain_turn t)
    → Tame id a (plain_turn t)
same-Tame id a b t e (inl q) =
    inl (record { none_started = q.none_started; kept = λ h. q.kept (ap (contains id) e ∙ h) })
same-Tame id a b t e (inr s) = inr (record {
  one_started = s.one_started;
  fresh = sym (ap (contains id) e) ∙ s.fresh;
  written = s.written;
})

receive_operation-Tame :
    (set : Setting) (now : Moment) (r : Received) (id : String) (a : Agent)
    → (r.envelope.message_id == id && not (is_native r.envelope)) ≡ false
    → Tame id a (plain_turn (receive_operation set now r a))
unfolding receive_operation send_failure send_new
receive_operation-Tame set now r id a safe =
    let c = record a.client { budgets = prune_budgets now a.client.running a.client.budgets } in
    elim (Result-cases (check_request set now r.envelope c)) [
      | inr (error, h) ↦
          rw (h, receive_operation) (inl (record { none_started = refl; kept = λ k. k }))
      | inl (request, h) ↦
          rw (h, receive_operation)
            (same-Tame id a (record a { client = c })
              (accept_request set now r request (record a { client = c })) refl
              (accept_request-Tame set now r request id (record a { client = c })
                (request-safe set now r.envelope c request id h safe)))
    ]

receive_kind-Tame :
    (set : Setting) (now : Moment) (r : Received) (id : String) (a : Agent) (kind : MessageKind)
    → r.envelope.kind ≡ kind
    → (r.envelope.message_id == id && not (is_native r.envelope)) ≡ false
    → Tame id a (plain_turn (receive_kind set now r a))
unfolding receive_kind
receive_kind-Tame set now r id a operation k safe =
    rw (k, receive_kind) (receive_operation-Tame set now r id a safe)
receive_kind-Tame set now r id a heartbeat k safe =
    rw (k, receive_kind) (inl (emit-Quiet set (heartbeat_reply r.envelope) id a))
receive_kind-Tame set now r id a _ k safe = rw (k, receive_kind) (inl (same-Quiet id a a refl))

receive-Tame :
    (set : Setting) (now : Moment) (r : Received) (id : String) (a : Agent)
    → (r.envelope.message_id == id && not (is_native r.envelope)) ≡ false
    → Tame id a (plain_turn (receive set now r a))
unfolding receive
receive-Tame set now r id a safe = elim (Result-cases (validate_bindings a.client r.envelope)) [
  | inr (error, h) ↦ rw (h, receive) (inl (same-Quiet id a a refl))
  | inl (_, h) ↦ elim (Option-cases (ack_of r.envelope)) [
    | inl k ↦ rw (h, k, receive) (receive_kind-Tame set now r id a r.envelope.kind refl safe)
    | inr (correlation, k) ↦
        rw (h, k, receive) (inl (receive_ack-Quiet set correlation r.envelope id a))
  ]
]

-- whether what arrives under the name `id` is an action that must not be repeated
unfoldable pub is_safe : String → Step → Bool
is_safe id (received now r) = not (r.envelope.message_id == id) || is_native r.envelope
is_safe id _ = true

step-Tame :
    (set : Setting) (next : Step) (id : String) (a : Agent)
    → is_safe id next ≡ true
    → Tame id a (step set next a)
unfolding step is_safe task_done
step-Tame set (received now r) id a safe = receive-Tame set now r id a (ground arith)
step-Tame set (begun now e budget) id a safe = inl (begin_task-Quiet set now e budget id a)
step-Tame set (handled e uncertain late h) id a safe =
    inl (completed-Quiet set e (outcome uncertain late e.correlation_id h) id a)
step-Tame set (done j) id a safe = inl (same-Quiet id a (task_done j a) refl)
step-Tame set (connected ticket epoch projects) id a safe =
    inl (connect-Quiet set ticket epoch projects id a)
step-Tame set crashed id a safe = inl (record { none_started = refl; kept = λ h. h })

-- with a receipt, nothing starts any more
run-known :
    (set : Setting) (steps : List Step) (id : String) (a : Agent)
    → all (is_safe id) steps ≡ true
    → contains id a.operations ≡ true
    → count_starts id (run set steps a).0 ≡ 0
unfolding run
run-known set [] id a safe h = refl
run-known set (next ∷ rest) id a safe h = elim (step-Tame set next id a (ground arith)) [
  | inr s ↦ absurd (ground (arith, s.fresh))
  | inl q ↦
      count-append id (step set next a).0 (run set rest (step set next a).1).0
      ∙ omega (
        arith,
        q.none_started,
        run-known set rest id (step set next a).1 (ground arith) (q.kept h),
      )
]

-- A native action is started at most once under its operation's name, over any redeliveries, crashes,
-- new connections and other work: where every message that has the name `id` carries an action that
-- must not be repeated, at most one task of `id` starts.
pub run-once :
    (set : Setting) (steps : List Step) (id : String) (a : Agent)
    → all (is_safe id) steps ≡ true
    → count_starts id (run set steps a).0 ≤ 1
unfolding run
run-once set [] id a safe = omega arith
run-once set (next ∷ rest) id a safe = elim (step-Tame set next id a (ground arith)) [
  | inl q ↦ omega (
    arith,
    count-append id (step set next a).0 (run set rest (step set next a).1).0,
    q.none_started,
    run-once set rest id (step set next a).1 (ground arith),
  )
  | inr s ↦ omega (
    arith,
    count-append id (step set next a).0 (run set rest (step set next a).1).0,
    s.one_started,
    run-known set rest id (step set next a).1 (ground arith) s.written,
  )
]
