-- ===== src/Tests/Tunnel.antt =====
-- The tunnel's theorems at a device that connects twice and an operation that it answers.
use codito_mcp.Tests.TunnelData.{
  tunnel_program, contracts, world, answer, live_operation, live, tables, connection,
  result_envelope, steps,
}
use codito_mcp.Common.{
  String, ◌≤◌, ◌<◌, ◌≡◌, refl, false, some, [], ◌∷◌, ok, err, nat_Eq, list_Eq, option_Eq, string_Eq,
}
use codito_mcp.Common.Dict.{lookup}
use codito_mcp.Db.Json.{Items, end_fields, field, str, obj, arr, item, end_items}
use codito_mcp.Relay.Types.{succeeded, in_progress}
use codito_mcp.Relay.Results.{durable_tool_result}
use codito_mcp.Relay.Tunnel.Types.{Connection, Envelope, Row, Tables, Refusal}
use codito_mcp.Relay.Tunnel.Tickets.{consume_ticket}
use codito_mcp.Relay.Tunnel.Record.{normalized, record_device_message, save_row}
use codito_mcp.Relay.Tunnel.Machine.{message, run, closed}
use codito_mcp.Relay.Tunnel.Moves.{Moves, phase}
use codito_mcp.Relay.Tunnel.Refines.{run-Moves}
use codito_mcp.Relay.Tunnel.Ends.{record-result_ends}
use codito_mcp.Relay.Tunnel.Saved.{published}
use codito_mcp.Relay.Tunnel.Loop.{receive_lifecycle, publishes, sends, text_or_none}
use codito_mcp.Relay.Tunnel.Prepare.{make_terminal_ack}
use codito_mcp.Relay.Tunnel.Durable.{Stored, receive-Stored}
use codito_mcp.Relay.Tunnel.Fence.{Shut, reopened-Shut}
use codito_mcp.Relay.Tunnel.SingleUse.{consumed-once}
use codito_mcp.Relay.Tunnel.Projects.{Projects, available, synchronize_projects, count_items}
use codito_mcp.Relay.Tunnel.Synchronized.{Reflects, synchronize-Reflects}

run-Moves_example :
    (new : Row) × (lookup "op" (run world steps tables).rows ≡ some new)
    × Moves (phase live_operation) (phase new.operation)
unfolding tunnel_program
run-Moves_example = run-Moves world steps "op" live tables (refl, tt) refl

record-result_ends_example :
    (new : Row) × (record_device_message world connection result_envelope tables
      ≡ (ok (published world live result_envelope, ("op", new)), save_row "op" new tables))
    × (record_device_message world connection result_envelope (save_row "op" new tables)
        ≡ (ok (published world live result_envelope, ("op", new)), save_row "op" new tables))
    × (in_progress new.operation.status ≡ false)
    × (new.operation.result ≡ some (durable_tool_result contracts (normalized world live answer)))
unfolding tunnel_program
record-result_ends_example =
    record-result_ends world connection result_envelope tables "op" live (refl, tt) refl refl refl
      refl refl

receive-Stored_example :
    (e' : Envelope) × (id : String) × (row : Row) × (publishes "correlation" result_envelope
        ∷ sends (
            make_terminal_ack "ack" connection
              (record live {
                operation = record live_operation { status = succeeded; result = some answer };
                last_device_sequence = 3;
              })
              result_envelope)
        ∷ []
      ≡ publishes (text_or_none e'.correlation_id) e'
        ∷ sends (make_terminal_ack "ack" connection row e')
        ∷ [])
    × Stored id row (receive_lifecycle world "ack" connection result_envelope tables []).1.0
unfolding tunnel_program
receive-Stored_example =
    receive-Stored world "ack" connection result_envelope tables []
      (publishes "correlation" result_envelope
        ∷ sends (
            make_terminal_ack "ack" connection
              (record live {
                operation = record live_operation { status = succeeded; result = some answer };
                last_device_sequence = 3;
              })
              result_envelope)
        ∷ [])
      (refl, tt) refl refl

-- after the first ticket of the device
abbrev older : Connection
older = record {
  device_id = "device";
  account = 7;
  account_wire_id = "account_0000000000000007";
  epoch = 5;
}

abbrev once : Tables
once = run world (closed connection ∷ []) (consume_ticket world 100 "first" "one" tables).1

abbrev newer : Connection
newer = record {
  device_id = "device";
  account = 7;
  account_wire_id = "account_0000000000000007";
  epoch = 6;
}

reopened-Shut_example :
    (5 < 6)
    × Shut world older (
        run world
          (message older result_envelope ∷ [])
          (consume_ticket world 110 "second" "two" once).1)
unfolding tunnel_program
reopened-Shut_example =
    reopened-Shut world 100 110 "first" "second" "one" "two" tables older newer
      (closed connection ∷ []) (message older result_envelope ∷ []) refl refl refl

consumed-once_example :
    (refusal : Refusal) × (consume_ticket world 110 "first" "one" once ≡ (err refusal, once))
unfolding tunnel_program
consumed-once_example =
    consumed-once world 100 110 "first" "one" "one" tables older (closed connection ∷ []) refl

abbrev listed : Items
listed =
    item
      (obj (
        field "project_id" (str "project_000000000") (
          field "title" (str "Notes")
            (field "root_fingerprint" (str "0123456789abcdef0123456789abcdef") end_fields))))
      end_items

abbrev known : Projects
known =
    (
      "old",
      record {
        account_id = 7;
        device_id = "device";
        title = "Old";
        root_fingerprint = "f";
        mode = "isolated";
        status = available;
      },
    )
    ∷ []

synchronize-Reflects_example :
    (count_items listed ≤ 1000)
    × Reflects world connection listed "old" (lookup "old" known) (
        lookup "old"
          (synchronize_projects world connection
            (field "projects" (arr listed) end_fields)
            known).1)
unfolding tunnel_program
synchronize-Reflects_example =
    synchronize-Reflects world connection (field "projects" (arr listed) end_fields) listed known
      "old" refl refl
