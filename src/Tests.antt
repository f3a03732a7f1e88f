-- ===== src/Tests.antt =====
-- Runs of the model on concrete inputs, and the theorems at inputs where their hypotheses hold.
mod State
mod Refunds
mod States
mod Gate
mod Rows
mod Policy
mod Controls
mod Retries
mod Recovery
mod Worker
mod Substrate
mod Investigation
mod Ingestion
