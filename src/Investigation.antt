-- ===== src/Investigation.antt =====
-- The investigation of a discrepancy: the facts that are assembled for the investigator
-- (src/engine/evidence_assembler.py, src/investigation/input_formatter.py) and the gate that its
-- answer passes (src/investigation/validator.py).
pub mod Context
pub mod Hypotheses
pub mod Validator
