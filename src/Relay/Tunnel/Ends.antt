-- ===== src/Relay/Tunnel/Ends.antt =====
-- A device's result at the relay, and the same sent again.
use codito_mcp.Common.{
  String, ◌≡◌, refl, ap, ◌∙◌, true, false, some, arith, ok, nat_Eq, list_Eq, option_Eq, string_Eq,
  eq_self, sym,
}
use codito_mcp.Common.Dict.{Unique}
use codito_mcp.Db.Json.{Fields}
use codito_mcp.Relay.Types.{in_progress}
use codito_mcp.Relay.Results.{durable_tool_result}
use codito_mcp.Relay.Tunnel.Types.{Connection, Envelope, Row, Tables, World}
use codito_mcp.Relay.Tunnel.Record.{
  normalize, is_result, record_device_message, is_stale, save_row, normalized, has_result,
  validate_payload, record_stale, invalid_payload, is_unsafe,
}
use codito_mcp.Relay.Tunnel.Binding.{validate_operation_binding}
use codito_mcp.Relay.Tunnel.Saved.{
  live_row-ended, published, ended_by, live_row-ended_by, record-ended_by, binding-saved,
}

-- the same message again, on the row that it left
record-again :
    (w : World) (c : Connection) (e : Envelope) (s : Tables) (id : String) (row new : Row)
    → is_result e.kind ≡ true
    → validate_operation_binding c e s ≡ ok (id, new)
    → in_progress new.operation.status ≡ false
    → is_stale c e new ≡ true
    → normalized w new e.payload ≡ normalized w row e.payload
    → has_result w new.operation.result (normalized w row e.payload) ≡ true
    → record_device_message w c e s ≡ (ok (published w row e, (id, new)), s)
unfolding record_device_message record_stale normalize
record-again w c e s id row new result bound ended stale same kept =
    rw (bound, stale, record_device_message, normalize, result, same, record_stale, ended, kept)
      (rw result refl)

stale-ended_by :
    (w : World) (c : Connection) (e : Envelope) (row : Row)
    → is_stale c e (ended_by w c (published w row e) row) ≡ true
unfolding is_stale
stale-ended_by w c e row = ground (arith, eq_self c.epoch)

normalized-ended_by :
    (w : World) (c : Connection) (e : Envelope) (row : Row) (payload : Fields)
    → normalized w (ended_by w c e row) payload ≡ normalized w row payload
unfolding normalized validate_payload invalid_payload is_unsafe
normalized-ended_by w c e row payload = refl

-- A result that its device sends for an operation which has not ended, with a sequence number that
-- is not stale, is accepted: the operation has then ended, with that result or with the failure
-- that stands for an invalid one. The same message sent again is accepted and changes nothing,
-- where the stored result equals itself, so that it is acknowledged until the device hears it.
pub record-result_ends :
    (w : World) (c : Connection) (e : Envelope) (s : Tables) (id : String) (row : Row)
    → Unique s.rows
    → is_result e.kind ≡ true
    → validate_operation_binding c e s ≡ ok (id, row)
    → in_progress row.operation.status ≡ true
    → is_stale c e row ≡ false
    → has_result w
        (some (durable_tool_result w.contracts (normalized w row e.payload)))
        (normalized w row e.payload)
      ≡ true
    → (new : Row) × (record_device_message w c e s
        ≡ (ok (published w row e, (id, new)), save_row id new s))
      × (record_device_message w c e (save_row id new s)
          ≡ (ok (published w row e, (id, new)), save_row id new s))
      × (in_progress new.operation.status ≡ false)
      × (new.operation.result ≡ some (durable_tool_result w.contracts (normalized w row e.payload)))
record-result_ends w c e s id row u result bound live fresh same =
    let new = ended_by w c (published w row e) row in
    let ended =
      ap (λ r. in_progress r.operation.status)
        (sym (live_row-ended_by w c (published w row e) row result))
      ∙ live_row-ended w c (published w row e) row result live in
    (
      new,
      record-ended_by w c e s id row result bound live fresh,
      record-again w c e (save_row id new s) id row new result
          (binding-saved c e s id row new u bound refl refl refl refl) ended
          (stale-ended_by w c e row) (normalized-ended_by w c (published w row e) row e.payload)
          same,
      ended,
      refl,
    )
