-- ===== src/Client/Quiet.antt =====
-- The turns of the client that start no task.
use codito_mcp.Common.{
  ℕ, String, ◌≡◌, refl, inl, inr, true, false, ◌&&◌, Option, none, some, List, [], ◌∷◌, arith,
  Result, ok, err, ◌==◌, nat_Eq, list_Eq, option_Eq, string_Eq, Result-cases, Bool-cases,
  Option-cases,
}
use codito_mcp.Common.Dict.{lookup, contains, remove}
use codito_mcp.Errors.{AgentError}
use codito_mcp.Models.{OperationState, outcome_unknown, running as running_state}
use codito_mcp.Db.Json.{Fields, obj}
use codito_mcp.Db.Operations.{transition_operation}
use codito_mcp.Relay.Results.{durable_tool_result}
use codito_mcp.Relay.Tunnel.Types.{Envelope}
use codito_mcp.Client.WireErrors.{to_tool_failure}
use codito_mcp.Client.Types.{Agent, Setting, Budget, Moment, AgentTicket}
use codito_mcp.Client.Send.{Outgoing, result_of}
use codito_mcp.Client.Receive.{
  Effect, Turn, receive_ack, acknowledge_stored, bindings_eq, acknowledged_binding,
}
use codito_mcp.Client.Accept.{emit, terminalize, uncertain_error}
use codito_mcp.Client.Work.{
  complete, begin_task, started_message, is_elapsed, failure, deadline_error,
}
use codito_mcp.Client.Machine.{connect, sends_all}
use codito_mcp.Client.Kept.{
  transition-kept, acknowledged-kept, count_starts, Quiet, plain_turn, emit-Quiet, same-Quiet,
}

-- a turn that goes on from a database which has kept the receipts
pub after-Quiet :
    (id : String) (a b : Agent) (t : List Effect × Agent)
    → (contains id a.operations ≡ true → contains id b.operations ≡ true)
    → Quiet id b t
    → Quiet id a t
after-Quiet id a b t kept q = record { none_started = q.none_started; kept = λ h. q.kept (kept h) }

-- a transition, then one envelope; or an exception
pub moved-Quiet :
    (set : Setting) (id : String) (a b : Agent) (o : Outgoing)
    (moved : Result AgentError (Unit {0})) (c : Agent)
    → (contains id a.operations ≡ true → contains id b.operations ≡ true)
    → (contains id a.operations ≡ true → contains id c.operations ≡ true)
    → Quiet id a (
        plain_turn (elim moved as (λ _. Turn) [
          | err error ↦ (err error, c)
          | ok _ ↦ (ok (emit set o b).0, (emit set o b).1)
        ]))
unfolding emit
moved-Quiet set id a b o (err error) c kept kept' = record { none_started = refl; kept = kept' }
moved-Quiet set id a b o (ok _) c kept kept' =
    after-Quiet id a b (emit set o b) kept (emit-Quiet set o id b)

pub terminalize-Quiet :
    (set : Setting) (e : Envelope) (id : String) (a : Agent)
    → Quiet id a (plain_turn (terminalize set e a))
unfolding terminalize
terminalize-Quiet set e id a =
    let payload = to_tool_failure uncertain_error e.correlation_id in
    let moved =
      transition_operation e.message_id outcome_unknown (some (obj payload)) set.written_at
        a.operations in
    let kept =
      transition-kept e.message_id outcome_unknown (some (obj payload)) set.written_at id
        a.operations in
    moved-Quiet set id a (record a { operations = moved.1 }) (result_of e payload) moved.0
      (record a { operations = moved.1 }) kept kept

pub complete-Quiet :
    (set : Setting) (e : Envelope) (state : OperationState) (payload : Fields) (id : String)
    (a : Agent)
    → Quiet id a (plain_turn (complete set e (state, payload) a))
unfolding complete
complete-Quiet set e state payload id a =
    let result = some (obj (durable_tool_result set.contracts payload)) in
    let moved = transition_operation e.message_id state result set.written_at a.operations in
    let kept = transition-kept e.message_id state result set.written_at id a.operations in
    moved-Quiet set id a
      (record a {
        operations = moved.1;
        client = record a.client { budgets = remove e.message_id a.client.budgets };
      })
      (result_of e payload) moved.0 (record a { operations = moved.1 }) kept kept

pub completed-Quiet :
    (set : Setting) (e : Envelope) (end : OperationState × Fields) (id : String) (a : Agent)
    → Quiet id a (plain_turn (complete set e end a))
completed-Quiet set e (state, payload) id a = complete-Quiet set e state payload id a

pub begin_task-Quiet :
    (set : Setting) (now : Moment) (e : Envelope) (budget : Budget) (id : String) (a : Agent)
    → Quiet id a (plain_turn (begin_task set now e budget a))
unfolding begin_task
begin_task-Quiet set now e budget id a =
    let moved = transition_operation e.message_id running_state none set.written_at a.operations in
    let kept = transition-kept e.message_id running_state none set.written_at id a.operations in
    let after = record a { operations = moved.1 } in
    elim (Result-cases moved.0) [
      | inr (error, h) ↦ rw (h, begin_task) (record { none_started = refl; kept = kept })
      | inl (_, h) ↦ elim (Bool-cases (is_elapsed now budget)) [
        | inl late ↦
            rw (h, late, begin_task)
              (after-Quiet id a after
                (plain_turn
                  (complete set e (failure (deadline_error false) e.correlation_id) after))
                kept
                (completed-Quiet set e (failure (deadline_error false) e.correlation_id) id after))
        | inr early ↦
            rw (h, early, begin_task)
              (after-Quiet id a after (emit set (started_message e) after) kept
                (emit-Quiet set (started_message e) id after))
      ]
    ]

acknowledge_stored-kept :
    (now : ℕ) (correlation : String) (digest grant link : Option String) (e : Envelope)
    (id : String) (a : Agent)
    → contains id a.operations ≡ true
    → contains id (acknowledge_stored now correlation digest grant link e a).operations ≡ true
unfolding acknowledge_stored
acknowledge_stored-kept now correlation (some digest) (some grant) (some link) e id a h =
    acknowledged-kept (acknowledged_binding correlation digest grant link e) now id a.operations h
acknowledge_stored-kept now correlation none grant link e id a h = h
acknowledge_stored-kept now correlation (some digest) none link e id a h = h
acknowledge_stored-kept now correlation (some digest) (some grant) none e id a h = h

pub receive_ack-Quiet :
    (set : Setting) (correlation : String) (e : Envelope) (id : String) (a : Agent)
    → Quiet id a (plain_turn (receive_ack set correlation e a))
unfolding receive_ack
receive_ack-Quiet set correlation e id a =
    elim (Option-cases (lookup correlation a.client.terminal_pending)) [
      | inl h ↦ rw (h, receive_ack) (same-Quiet id a a refl)
      | inr (kept, h) ↦
          elim (Bool-cases
            (e.action_digest == kept.action_digest && bindings_eq e.bindings kept.bindings)) [
              | inr other ↦ rw (h, other, receive_ack) (same-Quiet id a a refl)
              | inl same ↦
                  rw (h, same, receive_ack)
                    (record {
                      none_started = refl;
                      kept =
                          acknowledge_stored-kept set.written_at correlation kept.action_digest
                            kept.bindings.grant_id kept.bindings.link_id kept id a;
                    })
            ]
    ]

sends_all-quiet : (id : String) (es : List Envelope) → count_starts id (sends_all es) ≡ 0
sends_all-quiet id [] = refl
sends_all-quiet id (e ∷ es) = omega (arith, sends_all-quiet id es)

pub connect-Quiet :
    (set : Setting) (ticket : AgentTicket) (epoch : ℕ) (projects : Fields) (id : String) (a : Agent)
    → Quiet id a (connect set ticket epoch projects a)
unfolding connect
connect-Quiet set ticket epoch projects id a = record {
  none_started = omega (arith, sends_all-quiet id _);
  kept = λ h. h;
}
