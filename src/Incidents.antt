-- ===== src/Incidents.antt =====
-- The incidents of src/storage/postgres_substrate.py.
pub mod Records
pub mod Repository
pub mod Leases
pub mod Moves
pub mod Closed
pub mod Refusals
pub mod Keys
pub mod Updates
pub mod Retries
