-- ===== src/Relay/Transport/Answered.antt =====
-- The result that the relay waits for.
use mathlib.Core.Logic.{◌⊎◌}
use codito_mcp.Common.{
  String, ◌≡◌, refl, ap, Bool, true, false, Option, some, List, [], ◌∷◌, arith, ok, nat_Eq,
  string_Eq, option_Eq, option_beq_iff, Any, ◌⊎◌, inl, inr, Option-cases, >>=-eq-ok, ok-injective,
  ◌∙◌,
}
use codito_mcp.Db.Json.{Fields}
use codito_mcp.Relay.Tunnel.Types.{
  Envelope, MessageKind, hello, welcome, heartbeat, heartbeat_ack, operation, operation_received,
  operation_started, operation_progress, operation_result, operation_cancel, terminal_ack, error,
  goodbye,
}
use codito_mcp.Relay.Tunnel.Record.{is_result}
use codito_mcp.Relay.Transport.{
  Sent, StreamMessage, Round, answers, take_envelope, parsed, take_message, take_messages,
  wait_result,
}

-- a message that holds a result of the operation, of the connection that it has now
pub record IsAnswer (parse : String → Option Envelope) (sent : Sent) (payload : Fields)
    (m : StreamMessage) : Type 0 where
  pub envelope : Envelope
  pub read : parsed parse m.envelope ≡ some envelope
  pub correlation : envelope.correlation_id ≡ some sent.correlation_id
  pub action : envelope.action_digest ≡ some sent.action_digest
  pub device : envelope.bindings.device_id ≡ sent.device_id
  pub account : envelope.bindings.account_id ≡ sent.bindings.account_id
  pub link : envelope.bindings.link_id ≡ sent.bindings.link_id
  pub grant : envelope.bindings.grant_id ≡ sent.bindings.grant_id
  pub project : envelope.bindings.project_id ≡ sent.bindings.project_id
  pub a_result : envelope.kind ≡ operation_result
  pub current : envelope.connection_epoch ≡ m.current_epoch
  pub carried : envelope.payload ≡ payload

is_result-kind : (k : MessageKind) → is_result k ≡ true → k ≡ operation_result
unfolding is_result
is_result-kind operation_result h = refl
is_result-kind hello h = absurd (ground arith)
is_result-kind welcome h = absurd (ground arith)
is_result-kind heartbeat h = absurd (ground arith)
is_result-kind heartbeat_ack h = absurd (ground arith)
is_result-kind operation h = absurd (ground arith)
is_result-kind operation_received h = absurd (ground arith)
is_result-kind operation_started h = absurd (ground arith)
is_result-kind operation_progress h = absurd (ground arith)
is_result-kind operation_cancel h = absurd (ground arith)
is_result-kind terminal_ack h = absurd (ground arith)
is_result-kind error h = absurd (ground arith)
is_result-kind goodbye h = absurd (ground arith)

module _ (parse : String → Option Envelope) (sent : Sent) (payload : Fields) where
  take_envelope-IsAnswer :
      (m : StreamMessage) (e : Envelope)
      → parsed parse m.envelope ≡ some e
      → take_envelope sent m.current_epoch e ≡ ok (some payload)
      → IsAnswer parse sent payload m
  unfolding take_envelope answers
  take_envelope-IsAnswer m e found h = record {
    envelope = e;
    read = found;
    correlation = (option_beq_iff e.correlation_id (some sent.correlation_id)).0 (ground arith);
    action = (option_beq_iff e.action_digest (some sent.action_digest)).0 (ground arith);
    device = (string_Eq.beq_iff e.bindings.device_id sent.device_id).0 (ground arith);
    account = (string_Eq.beq_iff e.bindings.account_id sent.bindings.account_id).0 (ground arith);
    link = (option_beq_iff e.bindings.link_id sent.bindings.link_id).0 (ground arith);
    grant = (option_beq_iff e.bindings.grant_id sent.bindings.grant_id).0 (ground arith);
    project = (option_beq_iff e.bindings.project_id sent.bindings.project_id).0 (ground arith);
    a_result = is_result-kind e.kind (ground arith);
    current = (nat_Eq.beq_iff e.connection_epoch m.current_epoch).0 (ground arith);
    carried = ground arith;
  }

  take_message-IsAnswer :
      (m : StreamMessage)
      → take_message parse sent m ≡ ok (some payload)
      → IsAnswer parse sent payload m
  unfolding take_message
  take_message-IsAnswer m h = elim (Option-cases (parsed parse m.envelope)) [
    | inl e ↦ absurd (let q = rw (e, take_message) at h in ground arith)
    | inr (e, found) ↦ take_envelope-IsAnswer m e found (rw (found, take_message) at h)
  ]

  take_messages-IsAnswer :
      (messages : List StreamMessage)
      → take_messages parse sent messages ≡ ok (some payload)
      → Any (IsAnswer parse sent payload) messages
  unfolding take_messages
  take_messages-IsAnswer [] h = absurd (ground arith)
  take_messages-IsAnswer (m ∷ messages) h =
      let (found, taken, rest) = >>=-eq-ok (take_message parse sent m) _ h in
      elim (Option-cases found) [
        | inl e ↦ inr (take_messages-IsAnswer messages (rw e at rest))
        | inr (other, e) ↦ inl (
            take_message-IsAnswer m
              (taken ∙ ap ok (e ∙ ok-injective (some other) (some payload) (rw e at rest))))
      ]

  none_left : wait_result parse sent [] ≡ ok payload → ⊥
  unfolding wait_result
  none_left h = ground arith

  wait_round :
      (late : Bool) (messages : List StreamMessage) (rounds : List Round)
      → (wait_result parse sent rounds ≡ ok payload
          → Any (λ round. Any (IsAnswer parse sent payload) round.messages) rounds)
      → wait_result parse sent (record { is_late = late; messages = messages } ∷ rounds)
        ≡ ok payload
      → Any (IsAnswer parse sent payload) messages
        ⊎ Any (λ round. Any (IsAnswer parse sent payload) round.messages) rounds
  unfolding wait_result
  wait_round true messages rounds later h = absurd (ground arith)
  wait_round false [] rounds later h = absurd (ground arith)
  wait_round false (m ∷ messages) rounds later h =
      let (found, taken, rest) = >>=-eq-ok (take_messages parse sent (m ∷ messages)) _ h in
      elim (Option-cases found) [
        | inl e ↦ inr (later (rw e at rest))
        | inr (other, e) ↦ inl (
            take_messages-IsAnswer (m ∷ messages)
              (taken ∙ ap ok (e ∙ ap some (ok-injective other payload (rw e at rest)))))
      ]

  -- The relay hands out as the result of an operation only the payload of a message in the operation's
  -- stream that is a result, names the operation, its action, its device and all of its bindings, and
  -- comes from the connection that the operation has when it is read.
  pub wait_result-IsAnswer :
      (rounds : List Round)
      → wait_result parse sent rounds ≡ ok payload
      → Any (λ round. Any (IsAnswer parse sent payload) round.messages) rounds
  wait_result-IsAnswer [] h = absurd (none_left h)
  wait_result-IsAnswer (round ∷ rounds) h =
      wait_round round.is_late round.messages rounds (wait_result-IsAnswer rounds) h
