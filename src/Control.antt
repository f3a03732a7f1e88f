-- ===== src/Control.antt =====
-- The control plane of refunds: src/control/policy.py with src/control/provenance.py and
-- src/domain/refunds/models.py, and the provider boundary of src/integrations/provider.py.
pub mod Provider
pub mod Eligibility
pub mod Safety
