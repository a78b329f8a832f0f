-- ===== src/Relay/Tunnel/SingleUse.antt =====
-- Tickets over any steps of the tunnel.
use codito_mcp.Common.{
  ℕ, String, ◌≡◌, refl, ap, ◌∙◌, inl, inr, true, some, List, [], ◌∷◌, arith, ok, err, ◌==◌, nat_Eq,
  list_Eq, option_Eq, string_Eq, eq_self, is_some, Bool-cases, select,
}
use codito_mcp.Common.Dict.{lookup, lookup-insert}
use codito_mcp.Relay.Tunnel.Types.{Connection, Envelope, Row, Tables, World, Refusal, Ticket}
use codito_mcp.Relay.Tunnel.Tickets.{consume_ticket, is_usable, mark_online, touch, mark_offline}
use codito_mcp.Relay.Tunnel.Record.{
  record_device_message, record_stale, record_fresh, record_ended, reconcile,
}
use codito_mcp.Relay.Tunnel.Prepare.{
  prepare_row, prepare_found, prepare_operation_dispatch, mark_operation_sent, is_wanted,
}
use codito_mcp.Relay.Tunnel.Machine.{
  Step, message, prepare, sent, dispatching, present, opened, touched, closed, step, run,
}
use codito_mcp.Relay.Tunnel.Epochs.{consume-cases}

-- the ticket of a token is used
abbrev IsUsed : String → Tables → Type 0
IsUsed key s = (t : Ticket) × (lookup key s.tickets ≡ some t) × (is_some t.used_at ≡ true)

present-IsUsed :
    (w : World) (now : ℕ) (raw signature key : String) (s : Tables)
    → IsUsed key s
    → IsUsed key (consume_ticket w now raw signature s).1
present-IsUsed w now raw signature key s (t, here, used) =
    elim (consume-cases w now raw signature s) [
      | inl (refusal, h) ↦ rw h (t, here, used)
      | inr (u, d, _, _, _, h) ↦ elim (Bool-cases (w.hash_secret raw == key)) [
        | inl same ↦ rw h (
          record u { used_at = some now },
          ground (
            arith,
            lookup-insert (w.hash_secret raw) key (record u { used_at = some now }) s.tickets,
          ),
          refl,
        )
        | inr other ↦ rw h (
          t,
          ground (
            arith,
            lookup-insert (w.hash_secret raw) key (record u { used_at = some now }) s.tickets,
          ),
          used,
        )
      ]
    ]

record-tickets :
    (w : World) (c : Connection) (e : Envelope) (s : Tables)
    → (record_device_message w c e s).1.tickets ≡ s.tickets
unfolding record_device_message record_stale record_fresh record_ended reconcile
record-tickets w c e s = ground arith

prepare_found-tickets :
    (now : ℕ) (fresh : String) (c : Connection) (found : List (String × Row)) (s : Tables)
    → (prepare_found now fresh c found s).1.tickets ≡ s.tickets
unfolding prepare_found prepare_row
prepare_found-tickets now fresh c [] s = refl
prepare_found-tickets now fresh c ((id, row) ∷ rest) s = ground arith

step-IsUsed :
    (w : World) (next : Step) (key : String) (s : Tables)
    → IsUsed key s
    → IsUsed key (step w next s)
unfolding step mark_operation_sent mark_online touch mark_offline prepare_operation_dispatch
step-IsUsed w (message c e) key s (t, here, used) =
    (t, ap (lookup key) (record-tickets w c e s) ∙ here, used)
step-IsUsed w (prepare now fresh c correlation) key s (t, here, used) = (
  t,
  ap (lookup key)
        (prepare_found-tickets now fresh c (select (λ r. is_wanted c correlation r.1) s.rows) s)
      ∙ here,
  used,
)
step-IsUsed w (present now raw signature) key s h = present-IsUsed w now raw signature key s h
step-IsUsed w (sent j now c) key s h = h
step-IsUsed w (dispatching event) key s h = h
step-IsUsed w (opened now c) key s h = h
step-IsUsed w (touched now c) key s h = h
step-IsUsed w (closed c) key s h = h

run-IsUsed :
    (w : World) (steps : List Step) (key : String) (s : Tables)
    → IsUsed key s
    → IsUsed key (run w steps s)
unfolding run
run-IsUsed w [] key s h = h
run-IsUsed w (next ∷ rest) key s h =
    run-IsUsed w rest key (step w next s) (step-IsUsed w next key s h)

consumed-IsUsed :
    (w : World) (now : ℕ) (raw signature : String) (s : Tables) (c : Connection)
    → (consume_ticket w now raw signature s).0 ≡ ok c
    → IsUsed (w.hash_secret raw) (consume_ticket w now raw signature s).1
consumed-IsUsed w now raw signature s c done = elim (consume-cases w now raw signature s) [
  | inl (refusal, h) ↦ absurd (let q = rw h at done in ground arith)
  | inr (t, d, _, _, _, h) ↦ rw h (
    record t { used_at = some now },
    ground (
      arith,
      lookup-insert (w.hash_secret raw) (w.hash_secret raw) (record t { used_at = some now })
          s.tickets,
      eq_self (w.hash_secret raw),
    ),
    refl,
  )
]

used-refused :
    (w : World) (now : ℕ) (raw signature : String) (s : Tables)
    → IsUsed (w.hash_secret raw) s
    → (refusal : Refusal) × (consume_ticket w now raw signature s ≡ (err refusal, s))
unfolding is_usable
used-refused w now raw signature s (t, here, used) = elim (consume-cases w now raw signature s) [
  | inl refuses ↦ refuses
  | inr (u, d, found, _, good, _) ↦ absurd (ground arith)
]

-- A ticket opens one connection: once its token was accepted, it is refused from then on and
-- changes nothing, whatever happens in between and whatever signature comes with it.
pub consumed-once :
    (w : World) (now now' : ℕ) (raw signature signature' : String) (s : Tables) (c : Connection)
    (between : List Step)
    → (consume_ticket w now raw signature s).0 ≡ ok c
    → (refusal : Refusal) × (consume_ticket w now' raw signature'
          (run w between (consume_ticket w now raw signature s).1)
        ≡ (err refusal, run w between (consume_ticket w now raw signature s).1))
consumed-once w now now' raw signature signature' s c between done =
    used-refused w now' raw signature' (run w between (consume_ticket w now raw signature s).1) (
      run-IsUsed w between (w.hash_secret raw) (consume_ticket w now raw signature s).1
        (consumed-IsUsed w now raw signature s c done))
