-- ===== src/Client.antt =====
-- agent/src/codito_agent/websocket_client.py and wire_errors.py: the device's end of the tunnel.
pub mod WireErrors
pub mod Types
pub mod Send
pub mod Receive
pub mod Request
pub mod Accept
pub mod Work
pub mod Machine
pub mod Kept
pub mod Quiet
pub mod Started
pub mod Once
pub mod Replayed
pub mod Shown
pub mod Redacted
