-- ===== src/Relay/Tunnel/Machine.antt =====
-- The steps that the relay's tables take: messages and deliveries of the tunnel, connections of
-- devices, and what `dispatch_tool` writes.
use codito_mcp.Common.{ℕ, String, List, [], ◌∷◌, nat_Eq, list_Eq, option_Eq, string_Eq}
use codito_mcp.Common.Dict.{Dict}
use codito_mcp.Relay.Types.{Operation, Store}
use codito_mcp.Relay.Delivery.{Event, happen}
use codito_mcp.Relay.Tunnel.Types.{Connection, Envelope, Row, Tables, World}
use codito_mcp.Relay.Tunnel.Tickets.{consume_ticket, mark_online, touch, mark_offline}
use codito_mcp.Relay.Tunnel.Record.{record_device_message}
use codito_mcp.Relay.Tunnel.Prepare.{prepare_operation_dispatch, mark_operation_sent}

-- the columns of the rows that relay/codito_relay/core/dispatch.py uses
abbrev pub operations_of : Dict String Row → Dict String Operation
operations_of [] = []
operations_of ((id, row) ∷ rows) = (id, row.operation) ∷ operations_of rows

abbrev pub put_back : Dict String Operation → Dict String Row → Dict String Row
put_back ((i, op) ∷ ops) ((j, row) ∷ rows) = (j, record row { operation = op }) ∷ put_back ops rows
put_back _ rows = rows

abbrev pub store_of : Tables → Store
store_of s = record {
  devices = s.devices;
  projects = [];
  operations = operations_of s.rows;
  audit = s.audit;
}

abbrev pub relayed : Event → Tables → Tables
relayed event s = record s { rows = put_back (happen event (store_of s)).operations s.rows }

-- Times and fresh identifiers are part of a step.
pub data Step : Type 0 where
  message : Connection → Envelope → Step
  prepare : ℕ → String → Connection → String → Step
  sent : String → ℕ → Connection → Step
  dispatching : Event → Step
  present : ℕ → String → String → Step
  opened touched : ℕ → Connection → Step
  closed : Connection → Step

unfoldable pub step : World → Step → Tables → Tables
step w (message c e) s = (record_device_message w c e s).1
step w (prepare now fresh c correlation) s =
    (prepare_operation_dispatch now fresh c correlation s).1
step w (sent id now c) s = mark_operation_sent id now c s
step w (dispatching event) s = relayed event s
step w (present now raw signature) s = (consume_ticket w now raw signature s).1
step w (opened now c) s = mark_online now c s
step w (touched now c) s = touch now c s
step w (closed c) s = mark_offline c s

unfoldable pub run : World → List Step → Tables → Tables
run w [] s = s
run w (next ∷ rest) s = run w rest (step w next s)
