-- ===== src/Matching/Controls.antt =====
-- The controls of src/engine/reconciliation_controls.py. The text of an integer, which some reasons
-- quote, is a parameter.
use Prim.Native.String.{◌++◌ as join}
use financial_control_engine.Base.{
  String, ◌==◌, lower, ◌*◌, Bool, not, ◌&&◌, ◌||◌, List, [], ◌∷◌, map, length, Option, none, some,
  if◌then◌else◌,
}
use financial_control_engine.Base.Int.{ℤ, pos, ◌+ℤ◌, ltb_ℤ, eq_ℤ}
use financial_control_engine.Core.Models.{
  CanonicalStatus, failed, refunded, status_eq, status_value, match, discrepancy, DiscrepancyReason,
  absent_execution, amount_mismatch, state_mismatch, duplicate_execution, unexpected_execution,
  sla_breach, Expectation, Observation, ReconciliationResult,
}
use financial_control_engine.Matching.Grouping.{
  ExecutionGroup, seen_at, get_latest_observation, group_by_execution,
}

-- 24 hours in microseconds
abbrev pub one_day : ℤ
one_day = pos (24 * 3600 * 1000000)

-- `provider_latest[provider] = obs`, if the provider is new or the observation is newer
unfoldable pub note_latest : Observation → List (String × Observation) → List (String × Observation)
note_latest o [] = (lower o.provider, o) ∷ []
note_latest o ((p, x) ∷ rest) =
    if p == lower o.provider
    then (if ltb_ℤ (seen_at x) (seen_at o) then (p, o) ∷ rest else (p, x) ∷ rest)
    else (p, x) ∷ note_latest o rest

unfoldable pub provider_latest :
    List (String × Observation) → List Observation → List (String × Observation)
unfolding note_latest
provider_latest known [] = known
provider_latest known (o ∷ os) = provider_latest (note_latest o known) os

-- `status_match`
abbrev pub status_match : CanonicalStatus → CanonicalStatus → Bool
status_match expected observed =
    status_eq observed expected || (status_eq expected failed && status_eq observed refunded)

-- The first provider whose latest status is not the expected one.
unfoldable pub first_mismatch :
    CanonicalStatus → List (String × Observation) → Option (String × Observation)
first_mismatch expected [] = none
first_mismatch expected ((p, o) ∷ rest) =
    if status_match expected o.canonical_status then first_mismatch expected rest else some (p, o)

abbrev discrepant : Expectation → List String → DiscrepancyReason → String → ReconciliationResult
discrepant e ids reason text = record {
  expectation_id = some e.expectation_id;
  observation_ids = ids;
  outcome = discrepancy;
  reconciliation_reason = text;
  discrepancy_reason = some reason;
}

-- The last part: the currency and the amount of the latest observation.
abbrev pub compare_amounts :
    (ℤ → String) → Expectation → List String → Observation → ReconciliationResult
compare_amounts str e ids o =
    if not (o.currency == e.currency)
    then discrepant e ids amount_mismatch
        (join "Expected currency " (join e.currency (join ", observed " o.currency)))
    else if not (eq_ℤ o.observed_amount e.expected_amount)
    then discrepant e ids amount_mismatch (
        join "Expected amount "
          (join (str e.expected_amount) (join ", observed " (str o.observed_amount))))
    else record {
      expectation_id = some e.expectation_id;
      observation_ids = ids;
      outcome = match;
      reconciliation_reason = "Matched all qualifying controls";
      discrepancy_reason = none;
    }

abbrev pub compare_states :
    (ℤ → String)
    → Expectation
    → List String
    → Observation
    → Option (String × Observation)
    → ReconciliationResult
compare_states str e ids latest none = compare_amounts str e ids latest
compare_states str e ids latest (some (p, o)) = discrepant e ids state_mismatch (
    join "Provider " (
      join p (
        join " expected " (
          join (status_value e.expected_canonical_status)
            (join ", observed " (status_value o.canonical_status))))))

-- A group made by `group_by_execution` is not empty, so that `none` is not reached.
abbrev pub compare_group :
    (ℤ → String)
    → Expectation
    → List String
    → ExecutionGroup
    → Option Observation
    → Option ReconciliationResult
compare_group str e ids g none = none
compare_group str e ids g (some latest) = some (
    compare_states str e ids latest
      (first_mismatch e.expected_canonical_status (provider_latest [] g.observations)))

abbrev pub compare_executions :
    (ℤ → String) → Expectation → List String → ℤ → List ExecutionGroup → Option ReconciliationResult
compare_executions str e ids now [] =
    if ltb_ℤ (e.created_at +ℤ one_day) now
    then some
        (discrepant e ids sla_breach "Required terminal evidence did not appear before deadline")
    else some (discrepant e ids absent_execution "No qualifying execution observed")
compare_executions str e ids now (g ∷ []) = compare_group str e ids g (get_latest_observation g)
compare_executions str e ids now (g ∷ h ∷ gs) = some (
    discrepant e ids duplicate_execution
      (join "Multiple unique executions detected: " (str (pos (length (g ∷ h ∷ gs))))))

-- `evaluate_expectation_centric`; `none` stands for a call that raises.
unfoldable pub evaluate_expectation_centric :
    (ℤ → String) → Expectation → List Observation → ℤ → Option ReconciliationResult
unfolding group_by_execution first_mismatch provider_latest get_latest_observation
evaluate_expectation_centric str e candidates now =
    compare_executions str e (map (λ (o : Observation). o.observation_id) candidates) now
      (group_by_execution candidates)

-- `evaluate_observation_centric`
unfoldable pub evaluate_observation_centric :
    Observation → List Expectation → Option ReconciliationResult
evaluate_observation_centric o [] = some (record {
  expectation_id = none;
  observation_ids = o.observation_id ∷ [];
  outcome = discrepancy;
  reconciliation_reason = "Observation lacks any legitimate expectation";
  discrepancy_reason = some unexpected_execution;
})
evaluate_observation_centric o (e ∷ es) = none
