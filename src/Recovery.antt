-- ===== src/Recovery.antt =====
-- The recovery of src/recovery: the outbox of authorized actions and the registry of their attempts.
pub mod Outbox
pub mod Dispatch
pub mod Registry
