-- ===== src/Portfolio.antt =====
-- The portfolio scheduler: the queue entries and receipts of
-- skills/agentdesk/scripts/portfolio_scheduler_store.py, the selection policy of
-- portfolio_scheduler_policy.py, and the store.
pub mod Entry
pub mod Codec
pub mod Policy
pub mod Store
