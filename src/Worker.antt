-- ===== src/Worker.antt =====
-- `V2ControlWorker` of src/engine/worker.py with the collaborators that it drives.
pub mod Runs
pub mod Services
pub mod Writes
pub mod Observer
pub mod Actuator
pub mod Verifier
pub mod Process
pub mod Logic
pub mod Sources
pub mod Walk
pub mod Grounded
pub mod Stages
pub mod Steady
pub mod Sending
pub mod Approved
pub mod Sent
pub mod Paused
pub mod Closing
pub mod Outcomes
pub mod Resolved
pub mod Loop
pub mod Polling
pub mod Stuck
pub mod Retrying
pub mod Rounds
