-- ===== src/Tests.antt =====
-- Runs of the models at concrete inputs, and the theorems at inputs that meet their hypotheses.
mod Patch
mod Gate
mod Approvals
mod Relay
mod TunnelData
mod Tunnel
mod Client
mod Listing
mod Transport
mod Recovery
mod Service
mod Shell
mod Db
