-- ===== src/Portfolio/Store.antt =====
-- The durable store of skills/agentdesk/scripts/portfolio_scheduler_store.py.
pub mod State
pub mod Counter
pub mod Queue
pub mod Receipts
pub mod Valid
pub mod Growth
pub mod Moves
pub mod Recover
pub mod Loadable
pub mod Evidence
pub mod Writes
pub mod Admission
pub mod Admitted
pub mod History
pub mod Sound
pub mod Total
pub mod Resume
pub mod Once
mod Samples
mod Examples
