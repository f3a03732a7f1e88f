-- ===== src/Tests/Retries.antt =====
-- The claim of matured retries at a concrete table.
use financial_control_engine.Base.{ℕ, String, ◌≡◌, refl, List, [], ◌∷◌, Option, none, some, All}
use financial_control_engine.Lifecycle.{IncidentState, investigating, verifying, state_eq}
use financial_control_engine.Incidents.Records.{IncidentRecord}
use financial_control_engine.Incidents.Retries.{
  granted, acquire_matured_retries, IsClaimed, acquire_matured_retries-IsClaimed,
}

abbrev row : String → IncidentState → Option ℕ → IncidentRecord
row subject s due = record {
  active_subject = subject;
  discrepancy_reason = "MISSING_REFUND";
  incident_id = subject;
  state = s;
  lease_owner = none;
  lease_expires_at = none;
  hypothesis_payload = none;
  retry_count = 1;
  next_retry_at = due;
  version = 1;
  created_at = 0;
}

abbrev rows : List IncidentRecord
rows =
    row "a" investigating none
    ∷ row "b" investigating (some 90)
    ∷ row "c" verifying none
    ∷ row "d" investigating (some 10)
    ∷ []

-- At time 50 with a limit of 2: the retry that is due first, and then the one without a time.
claims_two :
    (acquire_matured_retries "w1" 60 2 50 rows).0
    ≡ granted "w1" 60000050 (row "d" investigating (some 10))
      ∷ granted "w1" 60000050 (row "a" investigating none)
      ∷ []
unfolding acquire_matured_retries state_eq
claims_two = refl

acquire_matured_retries-IsClaimed_example :
    All (IsClaimed "w1" 60 2 50 rows) (acquire_matured_retries "w1" 60 2 50 rows).0
acquire_matured_retries-IsClaimed_example = acquire_matured_retries-IsClaimed "w1" 60 2 50 rows
