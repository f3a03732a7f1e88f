-- ===== src/Reconcile.antt =====
-- The reconciliation of src/reconciliation (models.py and engine.py).
pub mod Models
pub mod Engine
pub mod Classification
