-- ===== src/Relay/Tunnel/Durable.antt =====
-- What the relay has stored when it acknowledges a result.
use mathlib.Core.Path.{subst}
use codito_mcp.Common.{
  String, ◌≡◌, refl, sym, ap, ◌∙◌, ◌⊎◌, inl, inr, true, false, not, ◌&&◌, Option, none, some, List,
  [], ◌∷◌, ◌++◌, arith, ok, err, nat_Eq, list_Eq, option_Eq, string_Eq, is_some, Result-cases,
  Bool-cases, ok-injective,
}
use codito_mcp.Common.Dict.{lookup, Unique, lookup-insert_self}
use codito_mcp.Db.Json.{Fields}
use codito_mcp.Relay.Types.{in_progress}
use codito_mcp.Relay.Tunnel.Types.{Connection, Envelope, Row, Tables, World, value_error, Refusal}
use codito_mcp.Relay.Tunnel.Record.{
  Recorded, normalize, live_row, late_row, reconcile, is_reconcilable, is_result, has_result,
  validate_payload, record_ended, record_fresh, record_stale, record_device_message, is_stale,
  is_uncertain, save_row,
}
use codito_mcp.Relay.Tunnel.Binding.{validate_operation_binding}
use codito_mcp.Relay.Tunnel.Loop.{
  receive_lifecycle, publishes, sends, published_effects, acknowledged_effects, text_or_none,
  Effect,
}
use codito_mcp.Relay.Tunnel.Prepare.{make_terminal_ack}
use codito_mcp.Relay.Tunnel.Projects.{Projects}
use codito_mcp.Relay.Tunnel.Messages.{binding-lookup, ended_as-ended}
use codito_mcp.Relay.Tunnel.Saved.{live_row-ended, live_row-result}

-- The row is in the table, ended, with a result.
abbrev pub Stored : String → Row → Tables → Type 0
Stored id row s =
    (lookup id s.rows ≡ some row)
    × (in_progress row.operation.status ≡ false)
    × (is_some row.operation.result ≡ true)

-- what an accepted message left
abbrev Keeps : Envelope → Recorded → Type 0
Keeps e r = (id : String) × (row : Row) × (r.0 ≡ ok (e, (id, row))) × Stored id row r.1

has_result-some :
    (w : World) (result : Option Fields) (payload : Fields)
    → has_result w result payload ≡ true
    → is_some result ≡ true
unfolding has_result
has_result-some w none payload h = absurd (ground arith)
has_result-some w (some result) payload h = refl

-- refused, or kept
abbrev Outcome : Envelope → Recorded → Type 0
Outcome e r = ((refusal : Refusal) × (r.0 ≡ err refusal)) ⊎ Keeps e r

late-Stored :
    (w : World) (c : Connection) (e : Envelope) (id : String) (row : Row) (valid : Fields)
    (s : Tables)
    → Stored id (late_row w c e row valid) (save_row id (late_row w c e row valid) s)
unfolding late_row
late-Stored w c e id row valid s = (
  lookup-insert_self id (late_row w c e row valid) s.rows,
  ended_as-ended (is_uncertain row e.payload) valid,
  refl,
)

reconcile-Outcome :
    (w : World) (c : Connection) (e : Envelope) (id : String) (row : Row) (s : Tables)
    → Outcome e (reconcile w c e id row s)
unfolding reconcile
reconcile-Outcome w c e id row s = elim (Result-cases (validate_payload w row e.payload)) [
  | inr (refusal, h) ↦ rw (h, reconcile) (inl (value_error, refl))
  | inl (valid, h) ↦
      rw (h, reconcile) (inr (id, late_row w c e row valid, refl, late-Stored w c e id row valid s))
]

same-Outcome :
    (w : World) (e : Envelope) (id : String) (row : Row) (s : Tables)
    → lookup id s.rows ≡ some row
    → in_progress row.operation.status ≡ false
    → has_result w row.operation.result e.payload ≡ true
    → Outcome e (ok (e, (id, row)), s)
same-Outcome w e id row s here ended same =
    inr (id, row, refl, (here, ended, has_result-some w row.operation.result e.payload same))

record_ended-Outcome :
    (w : World) (c : Connection) (e : Envelope) (id : String) (row : Row) (s : Tables)
    → lookup id s.rows ≡ some row
    → in_progress row.operation.status ≡ false
    → is_result e.kind ≡ true
    → Outcome e (record_ended w c e id row s)
unfolding record_ended
record_ended-Outcome w c e id row s here ended result =
    elim (Bool-cases (has_result w row.operation.result e.payload)) [
      | inl same ↦ rw (result, same, record_ended) (same-Outcome w e id row s here ended same)
      | inr differs ↦ elim (Bool-cases (is_reconcilable row.operation)) [
        | inl free ↦ rw (result, differs, free, record_ended) (reconcile-Outcome w c e id row s)
        | inr kept ↦ rw (result, differs, kept, record_ended) (inl (value_error, refl))
      ]
    ]

record_fresh-Outcome :
    (w : World) (c : Connection) (e : Envelope) (id : String) (row : Row) (s : Tables)
    → lookup id s.rows ≡ some row
    → is_result e.kind ≡ true
    → Outcome e (record_fresh w c e id row s)
unfolding record_fresh
record_fresh-Outcome w c e id row s here result =
    elim (Bool-cases (in_progress row.operation.status)) [
      | inr ended ↦ rw (ended, record_fresh) (record_ended-Outcome w c e id row s here ended result)
      | inl live ↦
          rw (live, record_fresh)
            (inr (
              id,
              live_row w c e row,
              refl,
              (
                lookup-insert_self id (live_row w c e row) s.rows,
                live_row-ended w c e row result live,
                ap is_some (live_row-result w c e row result),
              ),
            ))
    ]

record_stale-Outcome :
    (w : World) (e : Envelope) (id : String) (row : Row) (s : Tables)
    → lookup id s.rows ≡ some row
    → Outcome e (record_stale w e id row s)
unfolding record_stale
record_stale-Outcome w e id row s here =
    elim (Bool-cases (
      not (in_progress row.operation.status)
      && is_result e.kind
      && has_result w row.operation.result e.payload)) [
        | inr other ↦ rw (other, record_stale) (inl (value_error, refl))
        | inl exact ↦
            rw (exact, record_stale) (same-Outcome w e id row s here (ground arith) (ground arith))
      ]

normalize-kind :
    (w : World) (row : Row) (e : Envelope) → is_result (normalize w row e).kind ≡ is_result e.kind
unfolding normalize
normalize-kind w row e = elim (Bool-cases (is_result e.kind)) [
  | inl h ↦ rw (h, normalize) h
  | inr h ↦ rw (h, normalize) h
]

bound-Outcome :
    (w : World) (c : Connection) (e : Envelope) (id : String) (row : Row) (s : Tables)
    → validate_operation_binding c e s ≡ ok (id, row)
    → lookup id s.rows ≡ some row
    → is_result e.kind ≡ true
    → Outcome (normalize w row e) (record_device_message w c e s)
unfolding record_device_message
bound-Outcome w c e id row s h here result = elim (Bool-cases (is_stale c e row)) [
  | inl stale ↦
      rw (h, stale, record_device_message)
        (record_stale-Outcome w (normalize w row e) id row s here)
  | inr fresh ↦
      rw (h, fresh, record_device_message)
        (record_fresh-Outcome w c (normalize w row e) id row s here
          (normalize-kind w row e ∙ result))
]

record-Outcome :
    (w : World) (c : Connection) (e : Envelope) (s : Tables)
    → Unique s.rows
    → is_result e.kind ≡ true
    → (e' : Envelope) × (is_result e'.kind ≡ true) × Outcome e' (record_device_message w c e s)
unfolding record_device_message
record-Outcome w c e s u result = elim (Result-cases (validate_operation_binding c e s)) [
  | inr (refusal, h) ↦ (e, result, rw (h, record_device_message) (inl (refusal, refl)))
  | inl ((id, row), h) ↦ (
    normalize w row e,
    normalize-kind w row e ∙ result,
    bound-Outcome w c e id row s h (binding-lookup c e s (id, row) u h) result,
  )
]

abbrev effects_of : String → Connection → Row → Envelope → List Effect
effects_of fresh c row e = published_effects e ++ acknowledged_effects fresh c row e

lifecycle-turn :
    (w : World) (fresh : String) (c : Connection) (e : Envelope) (s : Tables) (projects : Projects)
    (e' : Envelope) (id : String) (row : Row)
    → (record_device_message w c e s).0 ≡ ok (e', (id, row))
    → receive_lifecycle w fresh c e s projects
      ≡ (ok (effects_of fresh c row e'), ((record_device_message w c e s).1, projects))
unfolding receive_lifecycle
lifecycle-turn w fresh c e s projects e' id row h = rw (h, receive_lifecycle) refl

result-effects :
    (fresh : String) (c : Connection) (row : Row) (e : Envelope)
    → is_result e.kind ≡ true
    → effects_of fresh c row e
      ≡ publishes (text_or_none e.correlation_id) e ∷ sends (make_terminal_ack fresh c row e) ∷ []
unfolding published_effects acknowledged_effects
result-effects fresh c row e result = ground arith

-- A device's result is acknowledged only when it is stored: where a turn of the receive loop takes
-- a result without an exception, it publishes the result and sends one acknowledgement, of an
-- operation whose row is in the tables that the turn leaves, has ended and has a result.
pub receive-Stored :
    (w : World) (fresh : String) (c : Connection) (e : Envelope) (s : Tables) (projects : Projects)
    (effects : List Effect)
    → Unique s.rows
    → is_result e.kind ≡ true
    → (receive_lifecycle w fresh c e s projects).0 ≡ ok effects
    → (e' : Envelope) × (id : String) × (row : Row) × (effects
        ≡ publishes (text_or_none e'.correlation_id) e'
          ∷ sends (make_terminal_ack fresh c row e')
          ∷ [])
      × Stored id row (receive_lifecycle w fresh c e s projects).1.0
unfolding receive_lifecycle
receive-Stored w fresh c e s projects effects u result done =
    let (e', result', outcome) = record-Outcome w c e s u result in
    elim outcome [
      | inl (refusal, h) ↦ absurd (let q = rw (h, receive_lifecycle) at done in ground arith)
      | inr (id, row, h, stored) ↦
          let turn = lifecycle-turn w fresh c e s projects e' id row h in
          (
            e',
            id,
            row,
            ok-injective effects (effects_of fresh c row e') (sym done ∙ ap (λ t. t.0) turn)
                ∙ result-effects fresh c row e' result',
            subst (λ t. Stored id row t.1.0) (sym turn) stored,
          )
    ]
