-- ===== src/Substrate.antt =====
-- The tables of src/storage/postgres_substrate.py other than the incidents, and the repositories over
-- them. A method that raises leaves its table as it was, since its session never commits.
pub mod Rows
pub mod Observations
pub mod Upserts
pub mod Versions
pub mod Reads
pub mod Polls
pub mod Expectations
pub mod Results
pub mod Events
pub mod Actuations
