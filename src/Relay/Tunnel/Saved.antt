-- ===== src/Relay/Tunnel/Saved.antt =====
-- A result of a device, and the row that is saved with it.
use mathlib.Core.Path.{subst}
use codito_mcp.Common.{
  String, ◌≡◌, refl, ap, ◌∙◌, inl, inr, Bool, true, false, not, some, [], ◌∷◌, arith, ok, ◌>>◌,
  raise_if, nat_Eq, list_Eq, option_Eq, string_Eq, select, Bool-cases, >>=-eq-ok, ok-injective,
}
use codito_mcp.Common.Dict.{Dict, lookup, insert, Unique, contains, lookup-select, select-holds}
use codito_mcp.Db.Json.{Fields}
use codito_mcp.Relay.Types.{Status, in_progress}
use codito_mcp.Relay.Results.{durable_tool_result}
use codito_mcp.Relay.Tunnel.Types.{Connection, Envelope, Row, Tables, World, value_error}
use codito_mcp.Relay.Tunnel.Record.{
  normalize, reported, advance, live_row, is_result, record_fresh, record_device_message, is_stale,
  save_row, ended_as, is_uncertain, rank, seen, normalized, with_result,
}
use codito_mcp.Relay.Tunnel.Binding.{
  is_named, get_one, binds_row, binds_connection, correlation_of, validate_operation_binding,
}
use codito_mcp.Relay.Tunnel.Messages.{live-status, get_one-first}

reported-result :
    (row : Row) (e : Envelope)
    → is_result e.kind ≡ true
    → reported row e ≡ some (ended_as (is_uncertain row e.payload) e.payload)
unfolding reported is_result
reported-result row e result = ground arith

-- a live operation takes an end that is reported
advance-ended :
    (old : Status) (uncertain : Bool) (payload : Fields)
    → in_progress old ≡ true
    → in_progress (advance (some (ended_as uncertain payload)) old) ≡ false
unfolding advance rank ended_as in_progress
advance-ended old uncertain payload live = ground arith

pub live_row-ended :
    (w : World) (c : Connection) (e : Envelope) (row : Row)
    → is_result e.kind ≡ true
    → in_progress row.operation.status ≡ true
    → in_progress (live_row w c e row).operation.status ≡ false
live_row-ended w c e row result live =
    ap in_progress (live-status w c e row)
    ∙ ap (λ new. in_progress (advance new row.operation.status)) (reported-result row e result)
    ∙ advance-ended row.operation.status (is_uncertain row e.payload) e.payload live

pub live_row-result :
    (w : World) (c : Connection) (e : Envelope) (row : Row)
    → is_result e.kind ≡ true
    → (live_row w c e row).operation.result ≡ some (durable_tool_result w.contracts e.payload)
unfolding live_row
live_row-result w c e row result = ground arith

-- the row that a query by `p` finds, after it was saved
select-saved :
    (p : String × Row → Bool) (id : String) (row new : Row) (rows : Dict String Row)
    → Unique rows
    → select p rows ≡ (id, row) ∷ []
    → p (id, new) ≡ true
    → select p (insert id new rows) ≡ (id, new) ∷ []
unfolding insert lookup
select-saved p id row new [] u found h = absurd (ground arith)
select-saved p id row new ((j, r) ∷ rows) (fresh, u) found h = elim (Bool-cases (p (j, r))) [
  | inl this ↦ ground (arith, string_Eq.beq_iff j id, ap (λ k. p (k, new)) {x = j} {y = id})
  | inr other ↦
      let here = lookup-select p id row [] rows u (ground arith) in
      ground (
        arith,
        select-saved p id row new rows u,
        string_Eq.beq_iff j id,
        ap (λ k. contains k rows) {x = j} {y = id},
      )
]

-- the message as it is stored and published, and the row that it leaves
abbrev pub published : World → Row → Envelope → Envelope
published w row e = record e { payload = normalized w row e.payload }

abbrev pub ended_by : World → Connection → Envelope → Row → Row
ended_by w c e row =
    seen c e (with_result w (advance (reported row e) row.operation.status) e.payload row.operation)
      row

pub live_row-ended_by :
    (w : World) (c : Connection) (e : Envelope) (row : Row)
    → is_result e.kind ≡ true
    → live_row w c e row ≡ ended_by w c e row
unfolding live_row
live_row-ended_by w c e row result = rw result refl

pub record-ended_by :
    (w : World) (c : Connection) (e : Envelope) (s : Tables) (id : String) (row : Row)
    → is_result e.kind ≡ true
    → validate_operation_binding c e s ≡ ok (id, row)
    → in_progress row.operation.status ≡ true
    → is_stale c e row ≡ false
    → record_device_message w c e s ≡ (
      ok (published w row e, (id, ended_by w c (published w row e) row)),
      save_row id (ended_by w c (published w row e) row) s,
    )
unfolding record_device_message record_fresh normalize
record-ended_by w c e s id row result bound live fresh =
    rw (bound, fresh, result, live, record_device_message, record_fresh, normalize)
      (ap (λ r. (ok (published w row e, (id, r)), save_row id r s))
        (live_row-ended_by w c (published w row e) row result))

-- what a bound message says of its row
binding-facts :
    (c : Connection) (e : Envelope) (s : Tables) (id : String) (row : Row)
    → validate_operation_binding c e s ≡ ok (id, row)
    → (correlation : String) × ((raise_if (not (binds_connection c e)) value_error
          >> correlation_of e.correlation_id)
        ≡ ok correlation)
      × (select (λ r. is_named s c correlation r.1) s.rows ≡ (id, row) ∷ [])
      × (binds_row e row ≡ true)
unfolding validate_operation_binding
binding-facts c e s id row h =
    let (correlation, first, last) =
      >>=-eq-ok
        (raise_if (not (binds_connection c e)) value_error >> correlation_of e.correlation_id) _
        h in
    let (found, here, checked) =
      >>=-eq-ok (get_one (select (λ r. is_named s c correlation r.1) s.rows)) _ last in
    let (_, holds, same) = >>=-eq-ok (raise_if (not (binds_row e found.1)) value_error) _ checked in
    let e' = ok-injective found (id, row) same in
    (
      correlation,
      first,
      get_one-first (select (λ r. is_named s c correlation r.1) s.rows) (id, row) (here ∙ same),
      subst (λ f. binds_row e f.1 ≡ true) e' (ground arith),
    )

binding-built :
    (c : Connection) (e : Envelope) (s : Tables) (id correlation : String) (row : Row)
    → (raise_if (not (binds_connection c e)) value_error >> correlation_of e.correlation_id)
      ≡ ok correlation
    → select (λ r. is_named s c correlation r.1) s.rows ≡ (id, row) ∷ []
    → binds_row e row ≡ true
    → validate_operation_binding c e s ≡ ok (id, row)
unfolding validate_operation_binding get_one
binding-built c e s id correlation row first found binds =
    rw (first, found, binds, validate_operation_binding) refl

-- the binding of a message is there after its row was saved
pub binding-saved :
    (c : Connection) (e : Envelope) (s : Tables) (id : String) (row new : Row)
    → Unique s.rows
    → validate_operation_binding c e s ≡ ok (id, row)
    → new.correlation_id ≡ row.correlation_id
    → new.link_id ≡ row.link_id
    → new.operation.scope ≡ row.operation.scope
    → new.operation.action_digest ≡ row.operation.action_digest
    → validate_operation_binding c e (save_row id new s) ≡ ok (id, new)
unfolding is_named binds_row
binding-saved c e s id row new u bound same_correlation same_link same_scope same_digest =
    let (correlation, first, found, binds) = binding-facts c e s id row bound in
    let named = select-holds (λ r. is_named s c correlation r.1) (id, row) [] s.rows found in
    binding-built c e (save_row id new s) id correlation new first
      (select-saved (λ r. is_named s c correlation r.1) id row new s.rows u found
        (ground (arith, ap (λ k. k.account_id) same_scope, ap (λ k. k.device) same_scope)))
      (ground (arith, ap (λ k. k.project) same_scope, ap (λ k. k.oauth_grant_id) same_scope))
