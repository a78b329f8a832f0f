-- ===== src/Relay/Tunnel/Tickets.antt =====
-- `_consume_ticket`, and what a connection may write to its device: `_mark_online`, `_touch` and
-- `_mark_offline`.
use codito_mcp.Common.{
  ℕ, String, ◌+◌, Bool, not, ◌&&◌, none, some, [], ◌∷◌, if◌then◌else◌, ok, err, ◌==◌, nat_Eq,
  list_Eq, option_Eq, string_Eq, is_some, ltb,
}
use codito_mcp.Common.Dict.{Dict, lookup, insert}
use codito_mcp.Relay.Types.{Device, online, offline, is_revoked}
use codito_mcp.Relay.Tunnel.Types.{
  Connection, Ticket, Tables, World, Checked, unauthenticated, does_not_exist, is_active, wire_id,
}

-- `ticket.usable`
unfoldable pub is_usable : ℕ → Ticket → Device → Bool
is_usable now t d = not (is_some t.used_at) && ltb now t.expires_at && is_active d

-- the device as a new connection leaves it
abbrev pub fenced : Device → Device
fenced d = record d { connection_epoch = d.connection_epoch + 1; status = offline }

abbrev pub connect : String → Device → Connection
connect id d = record {
  device_id = id;
  account = d.account_id;
  account_wire_id = wire_id d.account_id;
  epoch = d.connection_epoch + 1;
}

abbrev pub spend : ℕ → String → Ticket → Device → Tables → Tables
spend now key t d s = record s {
  tickets = insert key (record t { used_at = some now }) s.tickets;
  devices = insert t.device_id (fenced d) s.devices;
}

unfoldable pub present_ticket :
    World → ℕ → String → String → Ticket → Tables → Checked Connection × Tables
present_ticket w now raw signature t s = elim (lookup t.device_id s.devices) [
  | none ↦ (err does_not_exist, s)
  | some d ↦
      if is_usable now t d && w.verify t.device_id raw t.challenge signature
      then (ok (connect t.device_id d), spend now (w.hash_secret raw) t d s)
      else (err unauthenticated, s)
]

unfoldable pub consume_ticket : World → ℕ → String → String → Tables → Checked Connection × Tables
consume_ticket w now raw signature s = elim (lookup (w.hash_secret raw) s.tickets) [
  | none ↦ (err unauthenticated, s)
  | some t ↦ present_ticket w now raw signature t s
]

-- `Device.objects.filter(pk=..., connection_epoch=..., ...).update(...)`
unfoldable pub update_device :
    Connection → (Device → Bool) → (Device → Device) → Dict String Device → Dict String Device
update_device c guard f [] = []
update_device c guard f ((id, d) ∷ ds) =
    (id, if id == c.device_id && d.connection_epoch == c.epoch && guard d then f d else d)
    ∷ update_device c guard f ds

unfoldable pub mark_online : ℕ → Connection → Tables → Tables
mark_online now c s = record s {
  devices =
      update_device c (λ d. not d.is_gone)
        (λ d. record d { status = online; last_seen_at = some now }) s.devices;
}

unfoldable pub touch : ℕ → Connection → Tables → Tables
touch now c s = record s {
  devices =
      update_device c (λ d. not d.is_gone) (λ d. record d { last_seen_at = some now }) s.devices;
}

unfoldable pub mark_offline : Connection → Tables → Tables
mark_offline c s = record s {
  devices =
      update_device c (λ d. not (is_revoked d.status)) (λ d. record d { status = offline })
        s.devices;
}
