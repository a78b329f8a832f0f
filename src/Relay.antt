-- ===== src/Relay.antt =====
-- relay/codito_relay/core/dispatch.py: how the relay admits a tool call and what becomes of it.
pub mod Types
pub mod Scopes
pub mod Route
pub mod Admission
pub mod Delivery
pub mod Listing
pub mod Transport
pub mod Results
pub mod Tunnel
pub mod Dispatch
pub mod Queue
pub mod Needs
pub mod Routed
pub mod Once
pub mod Authorized
