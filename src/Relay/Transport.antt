-- ===== src/Relay/Transport.antt =====
-- relay/codito_relay/core/dispatch.py: `OfflineTransport`, and the wait of
-- `RedisStreamTransport.publish_and_wait` for a result. A round is what one `xread` gives, with whether
-- the time was up before it; each message has the epoch that the operation has when it is read.
use codito_mcp.Common.{
  ℕ, String, Bool, true, false, not, ◌&&◌, Option, none, some, List, [], ◌∷◌, if◌then◌else◌, Result,
  ok, err, ◌>>=◌, ◌==◌, nat_Eq, string_Eq, option_Eq,
}
use codito_mcp.Db.Json.{Fields}
use codito_mcp.Relay.Types.{Dispatched, fatal, transient}
use codito_mcp.Relay.Tunnel.Types.{Bindings, Envelope}
use codito_mcp.Relay.Tunnel.Record.{is_result}
pub mod Answered

-- what the envelope that was sent has
pub record Sent : Type 0 where
  pub correlation_id : String
  pub action_digest : String
  pub device_id : String
  pub bindings : Bindings

pub record StreamMessage : Type 0 where
  pub envelope : Option String
  pub current_epoch : ℕ

pub record Round : Type 0 where
  pub is_late : Bool
  pub messages : List StreamMessage

unfoldable pub answers : Sent → Envelope → Bool
answers sent e =
    e.correlation_id == some sent.correlation_id
    && e.bindings.device_id == sent.device_id
    && e.action_digest == some sent.action_digest
    && e.bindings.account_id == sent.bindings.account_id
    && e.bindings.link_id == sent.bindings.link_id
    && e.bindings.grant_id == sent.bindings.grant_id
    && e.bindings.project_id == sent.bindings.project_id

-- a result ends the wait; what is no result is passed over
unfoldable pub take_envelope : Sent → ℕ → Envelope → Dispatched (Option Fields)
take_envelope sent epoch e =
    if not (answers sent e)
    then err (fatal "protocol_error")
    else if not (is_result e.kind)
    then ok none
    else if not (e.connection_epoch == epoch)
    then err (fatal "protocol_error")
    else ok (some e.payload)

unfoldable pub parsed : (String → Option Envelope) → Option String → Option Envelope
parsed parse none = none
parsed parse (some text) = if text == "" then none else parse text

unfoldable pub take_message :
    (String → Option Envelope) → Sent → StreamMessage → Dispatched (Option Fields)
take_message parse sent m = elim (parsed parse m.envelope) [
  | none ↦ err (fatal "protocol_error")
  | some e ↦ take_envelope sent m.current_epoch e
]

unfoldable pub take_messages :
    (String → Option Envelope) → Sent → List StreamMessage → Dispatched (Option Fields)
take_messages parse sent [] = ok none
take_messages parse sent (m ∷ messages) = take_message parse sent m >>= λ found. elim found [
  | some payload ↦ ok (some payload)
  | none ↦ take_messages parse sent messages
]

-- `while True`: the rounds end with one that is late or that has no message
unfoldable pub wait_result : (String → Option Envelope) → Sent → List Round → Dispatched Fields
wait_result parse sent [] = err (transient "operation_timeout")
wait_result parse sent (round ∷ rounds) =
    if round.is_late then err (transient "operation_timeout") else elim round.messages [
      | [] ↦ err (transient "operation_timeout")
      | m ∷ messages ↦ take_messages parse sent (m ∷ messages) >>= λ found. elim found [
        | some payload ↦ ok payload
        | none ↦ wait_result parse sent rounds
      ]
    ]

-- `OfflineTransport.publish_and_wait`
abbrev pub offline_transport : Sent → Dispatched Fields
offline_transport sent = err (transient "device_offline")
