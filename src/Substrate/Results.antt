-- ===== src/Substrate/Results.antt =====
-- `PostgresReconciliationResultRepository` of src/storage/postgres_substrate.py. Results that were
-- created at the same time are taken in the order of the table.
use financial_control_engine.Base.{
  ℕ, String, ◌==◌, Bool, true, false, ◌&&◌, List, [], ◌∷◌, ◌++◌, any, find, keep, Option, none,
  some, Result, ok, err, if◌then◌else◌, nat_eq,
}
use financial_control_engine.Base.Int.{ℤ, leb_ℤ}
use financial_control_engine.Base.Sorting.{sort_by}
use financial_control_engine.Core.Models.{
  ReconciliationOutcome, match, discrepancy, DiscrepancyReason, absent_execution, amount_mismatch,
  state_mismatch, duplicate_execution, unexpected_execution, sla_breach, ReconciliationResult,
}
use financial_control_engine.Substrate.Observations.{IntegrityError, unique_violation}

-- A result with the id and the time that it is created with, which is the row of the table too.
pub record StoredResult : Type 0 where
  pub reconciliation_id : String
  pub created_at : ℤ
  pub result : ReconciliationResult

-- `reason.value`, which is the name of the member as well
unfoldable pub reason_value : DiscrepancyReason → String
reason_value absent_execution = "ABSENT_EXECUTION"
reason_value amount_mismatch = "AMOUNT_MISMATCH"
reason_value state_mismatch = "STATE_MISMATCH"
reason_value duplicate_execution = "DUPLICATE_EXECUTION"
reason_value unexpected_execution = "UNEXPECTED_EXECUTION"
reason_value sla_breach = "SLA_BREACH"

-- `DiscrepancyReason[name]`, where the name is that of a member
unfoldable pub reason_named : String → Option DiscrepancyReason
reason_named s =
    if s == "ABSENT_EXECUTION"
    then some absent_execution
    else if s == "AMOUNT_MISMATCH"
    then some amount_mismatch
    else if s == "STATE_MISMATCH"
    then some state_mismatch
    else if s == "DUPLICATE_EXECUTION"
    then some duplicate_execution
    else if s == "UNEXPECTED_EXECUTION"
    then some unexpected_execution
    else if s == "SLA_BREACH"
    then some sla_breach
    else none

-- `save`
unfoldable pub save_result :
    StoredResult → List StoredResult → Result IntegrityError (List StoredResult)
save_result x rows =
    if any (λ (r : StoredResult). r.reconciliation_id == x.reconciliation_id) rows
    then err unique_violation
    else ok (rows ++ x ∷ [])

-- `get`
unfoldable pub get_result : String → List StoredResult → Option StoredResult
get_result id rows = find (λ (r : StoredResult). r.reconciliation_id == id) rows

abbrev pub is_discrepancy : ReconciliationOutcome → Bool
is_discrepancy discrepancy = true
is_discrepancy match = false

abbrev reason_ordinal : DiscrepancyReason → ℕ
reason_ordinal absent_execution = 0
reason_ordinal amount_mismatch = 1
reason_ordinal state_mismatch = 2
reason_ordinal duplicate_execution = 3
reason_ordinal unexpected_execution = 4
reason_ordinal sla_breach = 5

abbrev of_reason : Option DiscrepancyReason → Option DiscrepancyReason → Bool
of_reason none found = true
of_reason (some a) none = false
of_reason (some a) (some b) = nat_eq (reason_ordinal a) (reason_ordinal b)

abbrev is_subject : String → Option String → Bool
is_subject subject none = false
is_subject subject (some id) = id == subject

-- `ORDER BY created_at DESC`
abbrev latest_first : StoredResult → StoredResult → Bool
latest_first x y = leb_ℤ y.created_at x.created_at

abbrev or_observed : Option StoredResult → String → List StoredResult → Option StoredResult
or_observed (some r) subject rows = some r
or_observed none subject rows =
    find (λ (r : StoredResult). any (λ id. id == subject) r.result.observation_ids) rows

-- `find_latest_discrepancy`
unfoldable pub find_latest_discrepancy : String → String → List StoredResult → Option StoredResult
unfolding reason_named
find_latest_discrepancy subject reason rows =
    let query = sort_by latest_first (
      keep
        (λ (r : StoredResult).
          is_discrepancy r.result.outcome
          && of_reason (reason_named reason) r.result.discrepancy_reason)
        rows) in
    or_observed (find (λ (r : StoredResult). is_subject subject r.result.expectation_id) query)
      subject query
