-- ===== src/Relay/Tunnel/Fence.antt =====
-- Connection epochs over any steps of the tunnel.
use mathlib.Core.Path.{subst}
use codito_mcp.Common.{
  ℕ, String, ◌≤◌, ◌≡◌, refl, sym, ap, ◌∙◌, inl, inr, Bool, not, ◌&&◌, some, List, [], ◌∷◌, arith,
  ok, err, ◌==◌, nat_Eq, list_Eq, option_Eq, string_Eq, select, Option-cases, Bool-cases,
  ok-injective, ◌<◌, false, suc, Result-cases, raise_if, ◌>>◌, none, ◌⊎◌, true,
}
use codito_mcp.Common.Dict.{Dict, lookup}
use codito_mcp.Relay.Types.{Device, online, offline, is_revoked}
use codito_mcp.Relay.Tunnel.Types.{
  Connection, Envelope, Row, Tables, World, Checked, Refusal, does_not_exist, value_error,
}
use codito_mcp.Relay.Tunnel.Tickets.{
  consume_ticket, connect, update_device, mark_online, touch, mark_offline,
}
use codito_mcp.Relay.Tunnel.Record.{record_device_message}
use codito_mcp.Relay.Tunnel.Binding.{
  is_named, validate_operation_binding, get_one, has_epoch, binds_connection, correlation_of,
}
use codito_mcp.Relay.Tunnel.Prepare.{
  Prepared, nothing, is_wanted, prepare_found, prepare_operation_dispatch,
}
use codito_mcp.Relay.Tunnel.Machine.{Step, run}
use codito_mcp.Relay.Tunnel.Epochs.{
  Reached, updated, lookup-update_device, consume-cases, consume-Reached, run-Reached,
}

-- a connection that is opened on a device is newer than every one that the device knew
open-newer :
    (w : World) (now : ℕ) (raw signature : String) (s : Tables) (n : ℕ) (c : Connection)
    → (consume_ticket w now raw signature s).0 ≡ ok c
    → Reached c.device_id n s.devices
    → n < c.epoch
open-newer w now raw signature s n c done (d, here, le) =
    elim (consume-cases w now raw signature s) [
      | inl (refusal, h) ↦ absurd (let q = rw h at done in ground arith)
      | inr (t, old, _, there, _, h) ↦
          let e = ok-injective (connect t.device_id old) c (sym (ap (λ r. r.0) h) ∙ done) in
          ground (arith, ap (λ k. k.epoch) e, ap (λ k. k.device_id) e)
    ]

select-none : {A : Type 0} (p : A → Bool) (xs : List A) → ((a : A) → p a ≡ false) → select p xs ≡ []
select-none p [] h = refl
select-none p (x ∷ xs) h = ground (arith, h x, select-none p xs h)

-- a device whose epoch has moved on
is_named-fenced :
    (c : Connection) (correlation : String) (row : Row) (s : Tables)
    → Reached c.device_id (suc c.epoch) s.devices
    → is_named s c correlation row ≡ false
unfolding is_named has_epoch
is_named-fenced c correlation row s (d, here, lt) =
    ground (arith, nat_Eq.beq_iff d.connection_epoch c.epoch)

binding-fenced :
    (c : Connection) (e : Envelope) (s : Tables)
    → Reached c.device_id (suc c.epoch) s.devices
    → (refusal : Refusal) × (validate_operation_binding c e s ≡ err refusal)
unfolding validate_operation_binding get_one
binding-fenced c e s h =
    elim (Result-cases
      (raise_if (not (binds_connection c e)) value_error >> correlation_of e.correlation_id)) [
        | inr (refusal, k) ↦ (refusal, rw (k, validate_operation_binding) refl)
        | inl (correlation, k) ↦ (
          does_not_exist,
          rw
              (
                k,
                select-none (λ r. is_named s c correlation r.1) s.rows
                    (λ r. is_named-fenced c correlation r.1 s h),
                validate_operation_binding,
              )
              refl,
        )
      ]

record-fenced :
    (w : World) (c : Connection) (e : Envelope) (s : Tables)
    → Reached c.device_id (suc c.epoch) s.devices
    → (refusal : Refusal) × (record_device_message w c e s ≡ (err refusal, s))
unfolding record_device_message
record-fenced w c e s h =
    let (refusal, k) = binding-fenced c e s h in (refusal, rw (k, record_device_message) refl)

lookup-update_absent :
    (c : Connection) (guard : Device → Bool) (f : Device → Device) (id : String)
    (ds : Dict String Device)
    → lookup id ds ≡ none
    → lookup id (update_device c guard f ds) ≡ none
unfolding update_device lookup
lookup-update_absent c guard f id [] h = refl
lookup-update_absent c guard f id ((i, x) ∷ ds) h =
    ground (arith, lookup-update_absent c guard f id ds)

updated-fenced :
    (c : Connection) (guard : Device → Bool) (f : Device → Device) (id : String) (x d : Device)
    (ds : Dict String Device)
    → lookup id ds ≡ some x
    → lookup c.device_id ds ≡ some d
    → suc c.epoch ≤ d.connection_epoch
    → updated c guard f id x ≡ x
updated-fenced c guard f id x d ds here there lt =
    elim (Bool-cases (id == c.device_id && x.connection_epoch == c.epoch && guard x)) [
      | inr other ↦ rw other refl
      | inl same ↦ absurd (
          ground (
            arith,
            string_Eq.beq_iff id c.device_id,
            nat_Eq.beq_iff x.connection_epoch c.epoch,
            ap (λ k. lookup k ds) {x = id} {y = c.device_id},
            ap (λ k. k.connection_epoch) {x = x} {y = d},
          ))
    ]

-- what an older connection writes changes no device
update-fenced :
    (c : Connection) (guard : Device → Bool) (f : Device → Device) (ds : Dict String Device)
    (id : String)
    → Reached c.device_id (suc c.epoch) ds
    → lookup id (update_device c guard f ds) ≡ lookup id ds
update-fenced c guard f ds id (d, here, lt) = elim (Option-cases (lookup id ds)) [
  | inl h ↦ lookup-update_absent c guard f id ds h ∙ sym h
  | inr (x, h) ↦
      lookup-update_device c guard f id x ds h
      ∙ ap some (updated-fenced c guard f id x d ds h here lt)
      ∙ sym h
]

stale :
    (c : Connection) (s : Tables)
    → Reached c.device_id (suc c.epoch) s.devices
    → has_epoch c.epoch (lookup c.device_id s.devices) ≡ false
unfolding has_epoch
stale c s (d, here, lt) =
    rw (here, has_epoch) (ground (arith, nat_Eq.beq_iff d.connection_epoch c.epoch))

wanted-device :
    (c : Connection) (correlation : String) (row : Row)
    → is_wanted c correlation row ≡ true
    → row.operation.scope.device ≡ c.device_id
unfolding is_wanted
wanted-device c correlation row h =
    (string_Eq.beq_iff row.operation.scope.device c.device_id).0 (ground arith)

-- There is nothing to send on the connection, and nothing is written.
abbrev pub IsIdle : Checked Prepared × Tables → Tables → Type 0
IsIdle done s = (done ≡ (ok nothing, s)) ⊎ (done ≡ (err value_error, s))

prepare-fenced :
    (now : ℕ) (fresh : String) (c : Connection) (correlation : String) (rows : Dict String Row)
    (s : Tables)
    → Reached c.device_id (suc c.epoch) s.devices
    → IsIdle (prepare_found now fresh c (select (λ r. is_wanted c correlation r.1) rows) s) s
unfolding prepare_found
prepare-fenced now fresh c correlation [] s h = inl refl
prepare-fenced now fresh c correlation ((id, row) ∷ rows) s h =
    elim (Bool-cases (is_wanted c correlation row)) [
      | inr other ↦ rw other (prepare-fenced now fresh c correlation rows s h)
      | inl wanted ↦
          let old =
            ap (λ device. has_epoch c.epoch (lookup device s.devices))
              (wanted-device c correlation row wanted)
            ∙ stale c s h in
          rw (wanted, old, prepare_found) (inr refl)
    ]

-- What the tables no longer take from a connection: messages about operations, its start, its
-- heartbeats, its end; and what they no longer give it: operations to send.
abbrev pub Shut : World → Connection → Tables → Type 0
Shut w c s =
    ((e : Envelope) → (refusal : Refusal) × (record_device_message w c e s ≡ (err refusal, s)))
    × ((now : ℕ) (id : String) → lookup id (mark_online now c s).devices ≡ lookup id s.devices)
    × ((now : ℕ) (id : String) → lookup id (touch now c s).devices ≡ lookup id s.devices)
    × ((id : String) → lookup id (mark_offline c s).devices ≡ lookup id s.devices)
    × ((now : ℕ) (fresh correlation : String)
        → IsIdle (prepare_operation_dispatch now fresh c correlation s) s)

Reached-Shut :
    (w : World) (c : Connection) (s : Tables)
    → Reached c.device_id (suc c.epoch) s.devices
    → Shut w c s
unfolding mark_online touch mark_offline prepare_operation_dispatch
Reached-Shut w c s shut = (
  λ e. record-fenced w c e s shut,
  λ now id.
      update-fenced c (λ d. not d.is_gone)
        (λ d. record d { status = online; last_seen_at = some now }) s.devices id shut,
  λ now id.
      update-fenced c (λ d. not d.is_gone) (λ d. record d { last_seen_at = some now }) s.devices id
        shut,
  λ id.
      update-fenced c (λ d. not (is_revoked d.status)) (λ d. record d { status = offline })
        s.devices id shut,
  λ now fresh correlation. prepare-fenced now fresh c correlation s.rows s shut,
)

-- A connection that is opened on a device after another one has a greater epoch. From then on,
-- whatever steps of the tunnel come, five operations are shut to the older connection:
-- `record_device_message` refuses each of its messages and changes nothing, `mark_online`, `touch` and
-- `mark_offline` change no device for it, and `prepare_operation_dispatch` gives it nothing to send and
-- writes nothing. Nothing is said of the synchronization of projects, which tests no epoch of the
-- device, nor of `mark_operation_sent`, which tests the epoch of the row.
pub reopened-Shut :
    (w : World) (now now' : ℕ) (raw raw' signature signature' : String) (s : Tables)
    (c c' : Connection) (between after : List Step)
    → (consume_ticket w now raw signature s).0 ≡ ok c
    → (consume_ticket w now' raw' signature'
        (run w between (consume_ticket w now raw signature s).1)).0
      ≡ ok c'
    → c.device_id ≡ c'.device_id
    → (c.epoch < c'.epoch)
      × Shut w c (
          run w after
            (consume_ticket w now' raw' signature'
              (run w between (consume_ticket w now raw signature s).1)).1)
reopened-Shut w now now' raw raw' signature signature' s c c' between after first second same =
    let s1 = run w between (consume_ticket w now raw signature s).1 in
    let known =
      run-Reached w between c.device_id c.epoch (consume_ticket w now raw signature s).1
        (consume-Reached w now raw signature s c first) in
    let newer =
      open-newer w now' raw' signature' s1 c.epoch c' second
        (subst (λ id. Reached id c.epoch s1.devices) same known) in
    let (d, here, le) = consume-Reached w now' raw' signature' s1 c' second in
    let shut =
      run-Reached w after c.device_id (suc c.epoch) (consume_ticket w now' raw' signature' s1).1 (
        d,
        ap (λ id. lookup id (consume_ticket w now' raw' signature' s1).1.devices) same ∙ here,
        omega arith,
      ) in
    (newer, Reached-Shut w c (run w after (consume_ticket w now' raw' signature' s1).1) shut)
