-- ===== src/SlotLease.antt =====
-- skills/agentdesk/scripts/worker_slot_lease.py: the durable leases of the eight Worker slots.
-- The children hold the store and its validation, the lifecycle operations, and what is proved.
pub mod Store
pub mod Validate
pub mod WellFormed
pub mod Lifecycle
pub mod Outcomes
pub mod Preserves
pub mod Validity
pub mod Fencing
pub mod Tenure
pub mod Capacity
pub mod Guard
pub mod Foreign
mod Examples
