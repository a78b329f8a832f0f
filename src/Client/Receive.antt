-- ===== src/Client/Receive.antt =====
-- `_validate_bindings`, `_receive` and `_start_dispatch`: what the client does with an envelope.
use codito_mcp.Common.{
  ℕ, String, Bool, true, false, not, ◌&&◌, Option, none, some, List, [], if◌then◌else◌, ok, err,
  ◌>>◌, raise_if, ◌==◌, nat_Eq, list_Eq, option_Eq, string_Eq,
}
use codito_mcp.Common.Dict.{lookup, remove}
use codito_mcp.Errors.{Raises, plain, stale_connection, binding_mismatch}
use codito_mcp.Db.Operations.{Binding, acknowledge_terminal}
use codito_mcp.Relay.Tunnel.Types.{Bindings, Envelope, MessageKind, terminal_ack}
use codito_mcp.Client.Types.{Budget, Client, Agent, Setting}

-- an envelope goes out, or a task starts: on a new receipt, or to reconcile one that is there
pub data Effect : Type 0 where
  sends : Envelope → Effect
  starts : String → Budget → Bool → Effect

unfoldable pub is_ack : MessageKind → Bool
is_ack terminal_ack = true
is_ack _ = false

-- `link_id is not None and link_id != ticket.link_id`
unfoldable pub other_link : String → Option String → Bool
other_link link none = false
other_link link (some given) = not (given == link)

unfoldable pub validate_bindings : Client → Envelope → Raises (Unit {0})
validate_bindings c e =
    raise_if (not (e.connection_epoch == c.epoch)) (plain stale_connection)
    >> raise_if (not (e.bindings.account_id == c.ticket.account_id)) (plain binding_mismatch)
    >> raise_if (not (e.bindings.device_id == c.ticket.device_id)) (plain binding_mismatch)
    >> raise_if (not (is_ack e.kind) && other_link c.ticket.link_id e.bindings.link_id)
        (plain binding_mismatch)

unfoldable pub bindings_eq : Bindings → Bindings → Bool
bindings_eq a b =
    a.account_id == b.account_id
    && a.device_id == b.device_id
    && a.link_id == b.link_id
    && a.grant_id == b.grant_id
    && a.project_id == b.project_id

-- the columns that `acknowledge_terminal` names
abbrev pub acknowledged_binding : String → String → String → String → Envelope → Binding
acknowledged_binding correlation digest grant link e = record {
  correlation_id = correlation;
  account_id = e.bindings.account_id;
  grant_id = grant;
  link_id = link;
  device_id = e.bindings.device_id;
  project_id = e.bindings.project_id;
  capability = "";
  action_digest = digest;
  idempotency_key = none;
  request_digest = "";
  deadline_at = "";
}

-- a result is taken off the database only where it has a grant, a link and a digest
unfoldable pub acknowledge_stored :
    ℕ → String → Option String → Option String → Option String → Envelope → Agent → Agent
acknowledge_stored now correlation (some digest) (some grant) (some link) e a = record a {
  operations =
      (acknowledge_terminal (acknowledged_binding correlation digest grant link e) now
        a.operations).1;
}
acknowledge_stored now correlation _ _ _ e a = a

abbrev pub forget_terminal : String → Agent → Agent
forget_terminal correlation a = record a {
  client = record a.client { terminal_pending = remove correlation a.client.terminal_pending };
}

abbrev pub Turn : Type 0
Turn = Raises (List Effect) × Agent

unfoldable pub receive_ack : Setting → String → Envelope → Agent → Turn
receive_ack set correlation e a = elim (lookup correlation a.client.terminal_pending) [
  | none ↦ (ok [], a)
  | some kept ↦
      if e.action_digest == kept.action_digest && bindings_eq e.bindings kept.bindings
      then (
        ok [],
        forget_terminal correlation (
            acknowledge_stored set.written_at correlation kept.action_digest kept.bindings.grant_id
              kept.bindings.link_id kept a),
      )
      else (err (plain binding_mismatch), a)
]
