-- ===== src/Substrate/Expectations.antt =====
-- `PostgresExpectationRepository` of src/storage/postgres_substrate.py.
use financial_control_engine.Base.{
  String, ◌==◌, Bool, true, false, ◌&&◌, ◌||◌, List, [], ◌∷◌, ◌++◌, any, find, keep, map, Option,
  none, some, if◌then◌else◌, write_first,
}
use financial_control_engine.Core.Models.{BusinessStatus, open_status, CorrelationKeys, Expectation}
use financial_control_engine.Substrate.Rows.{ExpectationRow, to_expectation, from_expectation}
use financial_control_engine.Substrate.Observations.{agrees, of_domain}

abbrev is_open : BusinessStatus → Bool
is_open open_status = true
is_open _ = false

abbrev has_id : String → ExpectationRow → Bool
has_id id r = r.expectation_id == id

-- `save`: of a row that exists the business status alone is written.
unfoldable pub save_expectation : Expectation → List ExpectationRow → List ExpectationRow
unfolding from_expectation
save_expectation e rows =
    if any (has_id e.expectation_id) rows
    then write_first (has_id e.expectation_id)
        (λ (r : ExpectationRow). record r { business_status = e.business_status }) rows
    else rows ++ from_expectation e ∷ []

abbrev as_expectation : Option ExpectationRow → Option Expectation
as_expectation none = none
as_expectation (some r) = some (to_expectation r)

-- `get`
unfoldable pub get_expectation : String → List ExpectationRow → Option Expectation
unfolding to_expectation
get_expectation id rows = as_expectation (find (has_id id) rows)

-- `find_open`
unfoldable pub find_open : List ExpectationRow → List Expectation
unfolding to_expectation
find_open rows = map to_expectation (keep (λ (r : ExpectationRow). is_open r.business_status) rows)

abbrev refers : CorrelationKeys → CorrelationKeys → Bool
refers keys stored =
    agrees keys.internal_ref stored.internal_ref || agrees keys.provider_ref stored.provider_ref

-- `find_by_correlation_keys`
unfoldable pub find_expectations : CorrelationKeys → List ExpectationRow → List Expectation
unfolding to_expectation
find_expectations keys rows = map to_expectation (
    keep
      (λ (r : ExpectationRow). refers keys r.correlation_keys && of_domain keys r.correlation_keys)
      rows)

-- `find_open_by_correlation_keys`, which does not read the domain
unfoldable pub find_open_by_correlation_keys :
    CorrelationKeys → List ExpectationRow → List Expectation
unfolding to_expectation
find_open_by_correlation_keys keys rows = map to_expectation (
    keep (λ (r : ExpectationRow). is_open r.business_status && refers keys r.correlation_keys) rows)
