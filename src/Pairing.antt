-- ===== src/Pairing.antt =====
-- The pairing of devices in skills/agentdesk/scripts/dockyard_pairing.py: one-time codes, tokens
-- that authenticate a device, and their revocation.
pub mod Records
pub mod Codes
pub mod Devices
pub mod Changes
pub mod Paired
pub mod Revoked
pub mod History
mod Examples
