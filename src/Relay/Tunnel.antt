-- ===== src/Relay/Tunnel.antt =====
-- relay/codito_relay/core/websocket.py: the tunnel between the relay and a device.
use codito_mcp.Common.{
  ℕ, zero, suc, String, ◌+◌, ◌-◌, ◌≤◌, ◌<◌, ◌≡◌, refl, sym, ap, ◌∙◌, ◌≢◌, ◌↔◌, ◌⊎◌, inl, inr, Bool,
  true, false, not, ◌&&◌, ◌||◌, Option, none, some, List, [], ◌∷◌, ◌++◌, map, arith, if◌then◌else◌,
  Result, ok, err, ◌>>=◌, ◌>>◌, raise_if, ◌==◌, nat_Eq, list_Eq, option_Eq, string_Eq,
}
pub mod Types
pub mod Tickets
pub mod Binding
pub mod Record
pub mod Prepare
pub mod Loop
pub mod Machine
pub mod Moves
pub mod Messages
pub mod Deliveries
pub mod Refines
pub mod Saved
pub mod Ends
pub mod Epochs
pub mod Fence
pub mod SingleUse
pub mod Projects
pub mod Upserts
pub mod Synchronized
pub mod Durable
