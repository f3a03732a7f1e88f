-- ===== src/Governance.antt =====
-- The governance of automated actions: src/domain/governance, src/storage/postgres_governance.py
-- and src/engine/governance_gate.py.
pub mod Models
pub mod Gate
pub mod Storage
pub mod Updates
pub mod Claims
pub mod Budgets
pub mod Effects
pub mod Versions
pub mod Idempotency
