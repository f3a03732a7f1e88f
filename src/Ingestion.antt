-- ===== src/Ingestion.antt =====
-- The ingestion of what providers deliver: src/ingestion/worker.py, src/storage/postgres_ingestion.py and
-- src/engine/adapters/razorpay_payment_adapter.py.
pub mod Payloads
pub mod Adapter
pub mod Repository
pub mod Memory
pub mod Batches
pub mod Entries
pub mod Agreement
pub mod Claims
pub mod Exclusive
pub mod Redelivery
pub mod Finishing
pub mod Updates
pub mod Unheard
