-- ===== src/Client/Send.antt =====
-- `_send_new`, `_send_failure`, `_replay_terminal` and `_replay_pending_terminals`.
use codito_mcp.Common.{
  String, ◌+◌, Bool, true, Option, none, some, List, [], ◌∷◌, ◌++◌, if◌then◌else◌, ◌==◌, nat_Eq,
  list_Eq, option_Eq, string_Eq, any,
}
use codito_mcp.Common.Dict.{Dict, insert}
use codito_mcp.Db.Json.{Fields, obj}
use codito_mcp.Db.Operations.{Binding, Operation, Operations}
use codito_mcp.Relay.Tunnel.Types.{Bindings, Envelope, MessageKind, operation_result}
use codito_mcp.Db.Operations.Unacknowledged.{list_unacknowledged}
use codito_mcp.Client.WireErrors.{LocalError, to_tool_failure}
use codito_mcp.Client.Types.{AgentTicket, Client, Setting}

-- the bindings of the ticket
abbrev pub ticket_bindings : AgentTicket → Bindings
ticket_bindings t = record {
  account_id = t.account_id;
  device_id = t.device_id;
  link_id = some t.link_id;
  grant_id = none;
  project_id = none;
}

-- what is sent, apart from what the connection gives it
pub record Outgoing : Type 0 where
  pub kind : MessageKind
  pub payload : Fields
  pub correlation_id : Option String
  pub bindings : Option Bindings
  pub action_digest : Option String
  pub is_terminal : Bool

unfoldable pub bindings_or : AgentTicket → Option Bindings → Bindings
bindings_or t none = ticket_bindings t
bindings_or t (some b) = b

abbrev pub envelope_of : Setting → Client → Outgoing → Envelope
envelope_of set c o = record {
  kind = o.kind;
  message_id = set.message_id c.epoch (c.out_sequence + 1);
  correlation_id = o.correlation_id;
  sequence = c.out_sequence + 1;
  connection_epoch = c.epoch;
  deadline_at = none;
  bindings = bindings_or c.ticket o.bindings;
  action_digest = o.action_digest;
  payload = o.payload;
}

-- `if terminal and correlation_id: self._terminal_pending[correlation_id] = envelope`
unfoldable pub keep_terminal :
    Bool → Option String → Envelope → Dict String Envelope → Dict String Envelope
keep_terminal true (some id) e kept = if id == "" then kept else insert id e kept
keep_terminal _ _ e kept = kept

unfoldable pub send_new : Setting → Outgoing → Client → Envelope × Client
send_new set o c =
    let e = envelope_of set c o in
    (
      e,
      record c {
        out_sequence = c.out_sequence + 1;
        terminal_pending = keep_terminal o.is_terminal o.correlation_id e c.terminal_pending;
      },
    )

-- a result of the operation that an envelope names
abbrev pub result_of : Envelope → Fields → Outgoing
result_of e payload = record {
  kind = operation_result;
  payload = payload;
  correlation_id = e.correlation_id;
  bindings = some e.bindings;
  action_digest = e.action_digest;
  is_terminal = true;
}

unfoldable pub send_failure : Setting → Envelope → LocalError → Client → Envelope × Client
send_failure set e error c = send_new set (result_of e (to_tool_failure error e.correlation_id)) c

-- `row["project_id"] if row["project_id"] else None`
unfoldable pub project_or_none : Option String → Option String
project_or_none none = none
project_or_none (some id) = if id == "" then none else some id

abbrev pub row_bindings : Binding → Bindings
row_bindings b = record {
  account_id = b.account_id;
  device_id = b.device_id;
  link_id = some b.link_id;
  grant_id = some b.grant_id;
  project_id = project_or_none b.project_id;
}

abbrev pub stored_result : Binding → Fields → Outgoing
stored_result b payload = record {
  kind = operation_result;
  payload = payload;
  correlation_id = some b.correlation_id;
  bindings = some (row_bindings b);
  action_digest = some b.action_digest;
  is_terminal = true;
}

-- the rows that are sent again: `isinstance(result, dict)`
unfoldable pub replays : Operation → Option Outgoing
replays row = elim row.result [ some (obj fs) ↦ some (stored_result row.binding fs) | _ ↦ none ]

unfoldable pub send_stored : Setting → List (String × Operation) → Client → List Envelope × Client
send_stored set [] c = ([], c)
send_stored set (row ∷ rows) c = elim (replays row.1) [
  | none ↦ send_stored set rows c
  | some o ↦
      let first = send_new set o c in
      let rest = send_stored set rows first.1 in (first.0 ∷ rest.0, rest.1)
]

-- `_replay_terminal`, for what is kept in memory only
unfoldable pub send_kept :
    Setting → List (String × Operation) → Dict String Envelope → Client → List Envelope × Client
send_kept set rows [] c = ([], c)
send_kept set rows ((id, e) ∷ kept) c =
    let rest = send_kept set rows kept c in
    if any (λ r. e.correlation_id == some r.1.binding.correlation_id) rows
    then rest
    else (let first = send_new set (result_of e e.payload) c in
        let after = send_kept set rows kept first.1 in (first.0 ∷ after.0, after.1))

unfoldable pub replay_pending_terminals : Setting → Operations → Client → List Envelope × Client
replay_pending_terminals set ops c =
    let rows = list_unacknowledged ops in
    let stored = send_stored set rows c in
    let kept = send_kept set rows c.terminal_pending stored.1 in (stored.0 ++ kept.0, kept.1)
