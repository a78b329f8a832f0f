-- ===== src/Relay/Tunnel/Epochs.antt =====
-- `_consume_ticket` and the epoch of a device.
use mathlib.Core.Path.{subst}
use codito_mcp.Common.{
  ℕ, String, ◌≤◌, ◌≡◌, refl, sym, ap, ◌∙◌, ◌⊎◌, inl, inr, Bool, true, not, ◌&&◌, some, List, [],
  ◌∷◌, arith, if◌then◌else◌, ok, err, ◌==◌, nat_Eq, list_Eq, option_Eq, string_Eq, select,
  Option-cases, Bool-cases, ok-injective, eq_self,
}
use codito_mcp.Common.Dict.{Dict, lookup, insert, lookup-insert}
use codito_mcp.Relay.Types.{Device, online, offline, is_revoked}
use codito_mcp.Relay.Tunnel.Types.{
  Connection, Envelope, Row, Tables, World, Refusal, Ticket, unauthenticated, does_not_exist,
}
use codito_mcp.Relay.Tunnel.Tickets.{
  consume_ticket, present_ticket, is_usable, fenced, connect, spend, update_device, mark_online,
  touch, mark_offline,
}
use codito_mcp.Relay.Tunnel.Record.{
  record_device_message, record_stale, record_fresh, record_ended, reconcile,
}
use codito_mcp.Relay.Tunnel.Prepare.{
  prepare_row, prepare_found, prepare_operation_dispatch, mark_operation_sent, is_wanted,
}
use codito_mcp.Relay.Tunnel.Machine.{
  Step, message, prepare, sent, dispatching, present, opened, touched, closed, step, run,
}

-- the device is there, and its epoch has come to `n`
abbrev pub Reached : String → ℕ → Dict String Device → Type 0
Reached id n ds = (d : Device) × (lookup id ds ≡ some d) × (n ≤ d.connection_epoch)

-- a guarded update of a device, seen at any device
abbrev pub updated : Connection → (Device → Bool) → (Device → Device) → String → Device → Device
updated c guard f id d =
    if id == c.device_id && d.connection_epoch == c.epoch && guard d then f d else d

pub lookup-update_device :
    (c : Connection) (guard : Device → Bool) (f : Device → Device) (id : String) (d : Device)
    (ds : Dict String Device)
    → lookup id ds ≡ some d
    → lookup id (update_device c guard f ds) ≡ some (updated c guard f id d)
unfolding update_device lookup
lookup-update_device c guard f id d [] h = absurd (ground arith)
lookup-update_device c guard f id d ((i, x) ∷ ds) h =
    ground (arith, lookup-update_device c guard f id d ds, string_Eq.beq_iff i id)

update-Reached :
    (c : Connection) (guard : Device → Bool) (f : Device → Device) (id : String) (n : ℕ)
    (ds : Dict String Device)
    → ((d : Device) → (f d).connection_epoch ≡ d.connection_epoch)
    → Reached id n ds
    → Reached id n (update_device c guard f ds)
update-Reached c guard f id n ds keeps (d, here, le) =
    (updated c guard f id d, lookup-update_device c guard f id d ds here, ground (arith, keeps d))

-- a ticket that opens a connection
abbrev pub Opens : World → ℕ → String → String → Tables → Type 0
Opens w now raw signature s =
    (t : Ticket) × (d : Device) × (lookup (w.hash_secret raw) s.tickets ≡ some t)
    × (lookup t.device_id s.devices ≡ some d)
    × (is_usable now t d && w.verify t.device_id raw t.challenge signature ≡ true)
    × (consume_ticket w now raw signature s
        ≡ (ok (connect t.device_id d), spend now (w.hash_secret raw) t d s))

abbrev pub Refuses : World → ℕ → String → String → Tables → Type 0
Refuses w now raw signature s =
    (refusal : Refusal) × (consume_ticket w now raw signature s ≡ (err refusal, s))

pub consume-cases :
    (w : World) (now : ℕ) (raw signature : String) (s : Tables)
    → Refuses w now raw signature s ⊎ Opens w now raw signature s
unfolding consume_ticket present_ticket
consume-cases w now raw signature s = elim (Option-cases (lookup (w.hash_secret raw) s.tickets)) [
  | inl h ↦ inl (unauthenticated, rw (h, consume_ticket) refl)
  | inr (t, h) ↦ elim (Option-cases (lookup t.device_id s.devices)) [
    | inl k ↦ inl (does_not_exist, rw (h, consume_ticket, present_ticket, k) refl)
    | inr (d, k) ↦
        elim (Bool-cases (is_usable now t d && w.verify t.device_id raw t.challenge signature)) [
          | inl good ↦ inr (t, d, h, k, good, rw (h, consume_ticket, present_ticket, k, good) refl)
          | inr bad ↦ inl (unauthenticated, rw (h, consume_ticket, present_ticket, k, bad) refl)
        ]
  ]
]

present-Reached :
    (w : World) (now : ℕ) (raw signature : String) (id : String) (n : ℕ) (s : Tables)
    → Reached id n s.devices
    → Reached id n (consume_ticket w now raw signature s).1.devices
present-Reached w now raw signature id n s (d, here, le) =
    elim (consume-cases w now raw signature s) [
      | inl (refusal, h) ↦ rw h (d, here, le)
      | inr (t, old, _, there, _, h) ↦ elim (Bool-cases (t.device_id == id)) [
        | inl same ↦ rw h (
          fenced old,
          ground (arith, lookup-insert t.device_id id (fenced old) s.devices),
          ground (arith, string_Eq.beq_iff t.device_id id),
        )
        | inr other ↦
            rw h (d, ground (arith, lookup-insert t.device_id id (fenced old) s.devices), le)
      ]
    ]

-- a connection is given to the device that it names, at the epoch that the device then has
pub consume-Reached :
    (w : World) (now : ℕ) (raw signature : String) (s : Tables) (c : Connection)
    → (consume_ticket w now raw signature s).0 ≡ ok c
    → Reached c.device_id c.epoch (consume_ticket w now raw signature s).1.devices
consume-Reached w now raw signature s c done = elim (consume-cases w now raw signature s) [
  | inl (refusal, h) ↦ absurd (let q = rw h at done in ground arith)
  | inr (t, old, _, there, _, h) ↦
      let e = ok-injective (connect t.device_id old) c (sym (ap (λ r. r.0) h) ∙ done) in
      rw h (
        subst (λ k. Reached k.device_id k.epoch (insert t.device_id (fenced old) s.devices)) e
          (
            fenced old,
            ground (
              arith,
              lookup-insert t.device_id t.device_id (fenced old) s.devices,
              eq_self t.device_id,
            ),
            omega arith,
          ))
]

-- messages and deliveries leave the devices alone
record-devices :
    (w : World) (c : Connection) (e : Envelope) (s : Tables)
    → (record_device_message w c e s).1.devices ≡ s.devices
unfolding record_device_message record_stale record_fresh record_ended reconcile
record-devices w c e s = ground arith

prepare_found-devices :
    (now : ℕ) (fresh : String) (c : Connection) (found : List (String × Row)) (s : Tables)
    → (prepare_found now fresh c found s).1.devices ≡ s.devices
unfolding prepare_found prepare_row
prepare_found-devices now fresh c [] s = refl
prepare_found-devices now fresh c ((id, row) ∷ rest) s = ground arith

step-Reached :
    (w : World) (next : Step) (id : String) (n : ℕ) (s : Tables)
    → Reached id n s.devices
    → Reached id n (step w next s).devices
unfolding step mark_operation_sent mark_online touch mark_offline prepare_operation_dispatch
step-Reached w (message c e) id n s h = subst (Reached id n) (sym (record-devices w c e s)) h
step-Reached w (prepare now fresh c correlation) id n s h =
    subst (Reached id n)
      (sym (prepare_found-devices now fresh c (select (λ r. is_wanted c correlation r.1) s.rows) s))
      h
step-Reached w (sent j now c) id n s h = h
step-Reached w (dispatching event) id n s h = h
step-Reached w (present now raw signature) id n s h = present-Reached w now raw signature id n s h
step-Reached w (opened now c) id n s h =
    update-Reached c (λ d. not d.is_gone)
      (λ d. record d { status = online; last_seen_at = some now }) id n s.devices (λ _. refl) h
step-Reached w (touched now c) id n s h =
    update-Reached c (λ d. not d.is_gone) (λ d. record d { last_seen_at = some now }) id n s.devices
      (λ _. refl) h
step-Reached w (closed c) id n s h =
    update-Reached c (λ d. not (is_revoked d.status)) (λ d. record d { status = offline }) id n
      s.devices (λ _. refl) h

pub run-Reached :
    (w : World) (steps : List Step) (id : String) (n : ℕ) (s : Tables)
    → Reached id n s.devices
    → Reached id n (run w steps s).devices
unfolding run
run-Reached w [] id n s h = h
run-Reached w (next ∷ rest) id n s h =
    run-Reached w rest id n (step w next s) (step-Reached w next id n s h)
