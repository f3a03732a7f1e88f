-- ===== src/Matching.antt =====
-- The bidirectional controls of the substrate: src/engine/execution_identity.py and
-- src/engine/reconciliation_controls.py.
pub mod Grouping
pub mod Controls
pub mod Executions
pub mod Latest
pub mod Providers
pub mod Matches
