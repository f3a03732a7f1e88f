-- ===== src/Worker/Retrying.antt =====
-- The retries of `_process_investigation` (src/engine/worker.py): their number and their delays.
use financial_control_engine.Base.{ℕ, ◌+◌, ◌≤◌, ◌≡◌, false, none, some, ◌⊎◌}
use financial_control_engine.Lifecycle.{investigating, verifying}
use financial_control_engine.Incidents.Records.{IncidentRecord}
use financial_control_engine.Incidents.Repository.{seconds, get_active_incident}
use financial_control_engine.Worker.Runs.{World}
use financial_control_engine.Worker.Services.{Services}
use financial_control_engine.Worker.Process.{Task, task_key}

-- A failure is under way for an incident that the worker holds. Its row may have changed since it was leased,
-- as by a hypothesis that was stored, but for the number of its retries.
pub record Failing (s : Services) (t : Task) (w : World) : Type 0 where
  pub up : s.outage w.tick ≡ false
  pub row : IncidentRecord
  pub found : get_active_incident (task_key t) w.database.incidents ≡ some row
  pub same_count : row.retry_count ≡ t.incident.retry_count
  pub owned : row.lease_owner ≡ some t.worker
  pub under_way : (row.state ≡ investigating) ⊎ (row.state ≡ verifying)

-- What a failure leaves of an incident that may be retried.
pub record RetriedLater (s : Services) (t : Task) (w : World) (x : IncidentRecord) : Type 0 where
  pub state : x.state ≡ investigating
  pub counted : x.retry_count ≡ t.incident.retry_count + 1
  pub limited : x.retry_count ≤ 5
  pub delay : ℕ
  pub due : x.next_retry_at ≡ some (s.clock w.tick + seconds delay)
  pub shortest : 30 ≤ delay
  pub longest : delay ≤ 480
  pub unleased : x.lease_owner ≡ none
