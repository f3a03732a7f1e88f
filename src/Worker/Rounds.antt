-- ===== src/Worker/Rounds.antt =====
-- The failures of an incident, one after the other: `_process_investigation` (src/engine/worker.py).
use financial_control_engine.Base.{ℕ, suc, ◌≤◌, ◌<◌, ◌≡◌, ◌⊎◌, some}
use financial_control_engine.Lifecycle.{
  IncidentState, investigating, escalated_missing_evidence, escalated_unknown,
}
use financial_control_engine.Incidents.Records.{IncidentRecord}
use financial_control_engine.Incidents.Repository.{get_active_incident}
use financial_control_engine.Worker.Runs.{World}
use financial_control_engine.Worker.Services.{Services}
use financial_control_engine.Worker.Process.{Task, task_key, retry_or_escalate}
use financial_control_engine.Worker.Retrying.{Failing}

-- What a worker escalates to, for a failure of the verification or of the infrastructure.
abbrev IsTarget : IncidentState → Type 0
IsTarget x = (x ≡ escalated_missing_evidence) ⊎ (x ≡ escalated_unknown)

-- A number of failures of an incident, and its row after the last. After each of the others it was
-- INVESTIGATING again, and it was then leased by any worker, in any world that keeps the number of its
-- retries.
pub data Rounds (s : Services) : Task → World → ℕ → IncidentRecord → Type 0 where
  last :
      (t : Task) (w : World) (target : IncidentState) (x : IncidentRecord)
      → Failing s t w
      → IsTarget target
      → get_active_incident (task_key t) (retry_or_escalate s t target w).1.database.incidents
        ≡ some x
      → Rounds s t w 1 x
  again :
      (t : Task) (w : World) (target : IncidentState) (x : IncidentRecord) (t' : Task) (w' : World)
      {n : ℕ} {y : IncidentRecord}
      → Failing s t w
      → IsTarget target
      → get_active_incident (task_key t) (retry_or_escalate s t target w).1.database.incidents
        ≡ some x
      → x.state ≡ investigating
      → t'.incident.retry_count ≡ x.retry_count
      → Rounds s t' w' n y
      → Rounds s t w (suc n) y

-- The row after failures that make up `total` with the retries before.
abbrev pub Ended : ℕ → IncidentRecord → Type 0
Ended total y =
    ((total ≤ 5) × (y.state ≡ investigating) × (y.retry_count ≡ total))
    ⊎ ((5 < total) × IsTarget y.state)
