-- ===== src/Core.antt =====
-- The domain models of src/domain/core/models.py and src/domain/actuation/models.py.
pub mod Models
pub mod Actuation
