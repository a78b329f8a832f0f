-- ===== src/Relay/Tunnel/Loop.antt =====
-- `_deliver_operation`, `_recover_unsent_operations`, the body of `_receive_loop` and the opening of
-- `device_websocket`. What goes out is a list of effects; an envelope that `model_validate` refuses
-- is `none`. `fresh` is the identifier of the new message, the same for each of one turn.
use codito_mcp.Common.{
  ℕ, String, Bool, true, false, ◌&&◌, ◌||◌, Option, none, some, List, [], ◌∷◌, ◌++◌, if◌then◌else◌,
  ok, err, ◌>>=◌, ◌==◌, nat_Eq, list_Eq, option_Eq, string_Eq, is_some, any,
}
use codito_mcp.Db.Json.{Fields, get_field, field, num, end_fields}
use codito_mcp.Relay.Tunnel.Types.{
  MessageKind, hello, welcome, heartbeat, heartbeat_ack, operation_received, operation_started,
  operation_progress, operation_result, terminal_ack, Bindings, Envelope, Connection, Row, Tables,
  World, Checked, multiple_objects,
}
use codito_mcp.Relay.Tunnel.Tickets.{consume_ticket, touch, mark_online}
use codito_mcp.Relay.Tunnel.Record.{record_device_message, is_result}
use codito_mcp.Relay.Tunnel.Binding.{binds_connection}
use codito_mcp.Relay.Tunnel.Prepare.{
  nothing, outbound, terminal, prepare_operation_dispatch, mark_operation_sent,
  recoverable_correlations, make_terminal_ack,
}
use codito_mcp.Relay.Tunnel.Projects.{Projects, synchronize_projects}

-- To the device, to the stream of an operation's results, the end of the connection, and an
-- exception that no handler takes.
pub data Effect : Type 0 where
  sends : Envelope → Effect
  publishes : String → Envelope → Effect
  closes : ℕ → Effect
  breaks : Effect

-- the two steps of `_deliver_operation`; its first one may raise
unfoldable pub deliver_operation :
    ℕ → String → Connection → String → Tables → Checked (List Effect) × Tables
deliver_operation now fresh c correlation s =
    let prepared = prepare_operation_dispatch now fresh c correlation s in
    elim prepared.0 [
      | err refusal ↦ (err refusal, s)
      | ok nothing ↦ (ok [], prepared.1)
      | ok (terminal id e) ↦ (ok (publishes correlation e ∷ []), prepared.1)
      | ok (outbound id e) ↦ (ok (sends e ∷ []), mark_operation_sent id now c prepared.1)
    ]

unfoldable pub deliver_all :
    ℕ → String → Connection → List String → Tables → Checked (List Effect) × Tables
deliver_all now fresh c [] s = (ok [], s)
deliver_all now fresh c (correlation ∷ others) s =
    let first = deliver_operation now fresh c correlation s in
    let rest = deliver_all now fresh c others first.1 in
    elim first.0 [
      | err refusal ↦ (err refusal, first.1)
      | ok effects ↦ (rest.0 >>= λ more. ok (effects ++ more), rest.1)
    ]

unfoldable pub recover_unsent : ℕ → String → Connection → Tables → Checked (List Effect) × Tables
recover_unsent now fresh c s = deliver_all now fresh c (recoverable_correlations c s) s

unfoldable pub is_lifecycle : MessageKind → Bool
is_lifecycle operation_received = true
is_lifecycle operation_started = true
is_lifecycle operation_progress = true
is_lifecycle operation_result = true
is_lifecycle terminal_ack = true
is_lifecycle _ = false

unfoldable pub is_hello : MessageKind → Bool
is_hello hello = true
is_hello _ = false

unfoldable pub is_heartbeat : MessageKind → Bool
is_heartbeat heartbeat = true
is_heartbeat _ = false

unfoldable pub is_progress : MessageKind → Bool
is_progress operation_progress = true
is_progress _ = false

unfoldable pub text_or_none : Option String → String
text_or_none none = "None"
text_or_none (some s) = s

abbrev pub connection_bindings : Connection → Bindings
connection_bindings c = record {
  account_id = c.account_wire_id;
  device_id = c.device_id;
  link_id = none;
  grant_id = none;
  project_id = none;
}

-- an envelope of the relay's own, of no operation
abbrev pub plain_envelope :
    MessageKind → String → Option String → ℕ → Connection → Fields → Envelope
plain_envelope kind message correlation sequence c payload = record {
  kind = kind;
  message_id = message;
  correlation_id = correlation;
  sequence = sequence;
  connection_epoch = c.epoch;
  deadline_at = none;
  bindings = connection_bindings c;
  action_digest = none;
  payload = payload;
}

unfoldable pub published_effects : Envelope → List Effect
published_effects e =
    if is_progress e.kind || is_result e.kind
    then publishes (text_or_none e.correlation_id) e ∷ []
    else []

unfoldable pub acknowledged_effects : String → Connection → Row → Envelope → List Effect
acknowledged_effects fresh c row e =
    if is_result e.kind then sends (make_terminal_ack fresh c row e) ∷ [] else []

-- Both tables, and what a turn sends.
abbrev pub Turn : Type 0
Turn = Checked (List Effect) × (Tables × Projects)

unfoldable pub receive_lifecycle : World → String → Connection → Envelope → Tables → Projects → Turn
receive_lifecycle w fresh c e s projects =
    let recorded = record_device_message w c e s in
    elim recorded.0 [
      | err refusal ↦ (err refusal, (s, projects))
      | ok (e', (id, row)) ↦
          (ok (published_effects e' ++ acknowledged_effects fresh c row e'), (recorded.1, projects))
    ]

unfoldable pub receive_kind : World → String → Connection → Envelope → Tables → Projects → Turn
receive_kind w fresh c e s projects =
    if is_hello e.kind && is_some (get_field "projects" e.payload)
    then (let synced = synchronize_projects w c e.payload projects in
        (synced.0 >>= λ _. ok [], (s, synced.1)))
    else if is_lifecycle e.kind
    then receive_lifecycle w fresh c e s projects
    else if is_heartbeat e.kind
    then (
      ok (
          sends (plain_envelope heartbeat_ack fresh (some e.message_id) e.sequence c end_fields)
          ∷ []),
      (s, projects),
    )
    else (ok [], (s, projects))

-- After a turn that raised nothing the device was seen; else the connection ends.
unfoldable pub end_turn : ℕ → Connection → Turn → List Effect × (Tables × Projects)
end_turn now c (err multiple_objects, (s, projects)) = (breaks ∷ [], (s, projects))
end_turn now c (err refusal, (s, projects)) = (closes 1008 ∷ [], (s, projects))
end_turn now c (ok effects, (s, projects)) = (effects, (touch now c s, projects))

unfoldable pub receive :
    World
    → ℕ
    → String
    → Connection
    → Option Envelope
    → Tables
    → Projects
    → List Effect × (Tables × Projects)
receive w now fresh c none s projects = (closes 1008 ∷ [], (s, projects))
receive w now fresh c (some e) s projects =
    if binds_connection c e
    then end_turn now c (receive_kind w fresh c e s projects)
    else (closes 1008 ∷ [], (s, projects))

-- `websocket.headers`: the scheme and the ticket of `authorization`, the proof, the protocols
pub record Opening : Type 0 where
  pub scheme : String
  pub raw_ticket : Option String
  pub proof : String
  pub protocols : List String

abbrev pub welcome_payload : ℕ → Fields
welcome_payload queue_limit =
    field "heartbeat_interval_seconds" (num 30)
      (field "offline_after_seconds" (num 75) (field "queue_limit" (num queue_limit) end_fields))

unfoldable pub offers : Opening → Bool
offers o = o.scheme == "DeviceTicket" && any (λ p. p == "codito.device.v1") o.protocols

-- the WELCOME that fences the device, or the refusal of the connection
unfoldable pub open_with : World → ℕ → String → ℕ → String → Opening → Tables → List Effect × Tables
open_with w now fresh queue_limit raw o s =
    let opened = consume_ticket w now raw o.proof s in
    elim opened.0 [
      | err refusal ↦ (closes 1008 ∷ [], s)
      | ok c ↦ (
        sends (plain_envelope welcome fresh none 0 c (welcome_payload queue_limit)) ∷ [],
        mark_online now c opened.1,
      )
    ]

unfoldable pub open_websocket : World → ℕ → String → ℕ → Opening → Tables → List Effect × Tables
open_websocket w now fresh queue_limit o s = elim o.raw_ticket [
  | none ↦ (closes 1008 ∷ [], s)
  | some raw ↦ if offers o then open_with w now fresh queue_limit raw o s else (closes 1008 ∷ [], s)
]
