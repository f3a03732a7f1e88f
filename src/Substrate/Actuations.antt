-- ===== src/Substrate/Actuations.antt =====
-- `PostgresActuationRepository` of src/storage/postgres_substrate.py. The rows are the actuation
-- records themselves.
use financial_control_engine.Base.{
  String, ◌==◌, Bool, List, [], ◌∷◌, ◌++◌, any, find, keep, Option, Result, ok, err, if◌then◌else◌,
  write_first,
}
use financial_control_engine.Core.Actuation.{ActuationRecord}
use financial_control_engine.Substrate.Observations.{IntegrityError, unique_violation}

abbrev pub has_record_id : String → ActuationRecord → Bool
has_record_id id r = r.record_id == id

abbrev pub has_key_of : String → ActuationRecord → Bool
has_key_of key r = r.idempotency_key == key

abbrev pub outcome_of : ActuationRecord → ActuationRecord → ActuationRecord
outcome_of x r = record r { state = x.state; updated_at = x.updated_at }

-- `save`: of a row that exists the state and the time are written; the key is unique.
unfoldable pub save_actuation :
    ActuationRecord → List ActuationRecord → Result IntegrityError (List ActuationRecord)
save_actuation x rows =
    if any (has_record_id x.record_id) rows
    then ok (write_first (has_record_id x.record_id) (outcome_of x) rows)
    else if any (has_key_of x.idempotency_key) rows
    then err unique_violation
    else ok (rows ++ x ∷ [])

-- `get_by_idempotency_key`
unfoldable pub get_by_idempotency_key : String → List ActuationRecord → Option ActuationRecord
get_by_idempotency_key key rows = find (has_key_of key) rows

-- `get_by_execution_identity`
unfoldable pub get_by_execution_identity : String → List ActuationRecord → List ActuationRecord
get_by_execution_identity identity rows =
    keep (λ (r : ActuationRecord). r.execution_identity == identity) rows
