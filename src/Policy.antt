-- ===== src/Policy.antt =====
-- The V2 policy of src/engine/policy.py.
pub mod Evaluate
pub mod Selection
pub mod Intents
pub mod Contradictions
