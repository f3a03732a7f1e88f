-- ===== src/StateEngine.antt =====
-- The state engine of src/state (models.py and engine.py), over the records of
-- src/evidence/models.py and the query confidences of src/integrations/provider.py.
pub mod Models
pub mod Ordering
pub mod Reconstruct
pub mod Execution
pub mod Terminals
pub mod ArrivalOrder
