-- ===== src/Tests/Controls.antt =====
-- The bidirectional controls at concrete observations.
use financial_control_engine.Base.{String, ◌≡◌, refl, lower, List, [], ◌∷◌, Option, none, some}
use financial_control_engine.Base.Int.{ℤ, pos}
use financial_control_engine.Core.Models.{
  CanonicalStatus, settled, failed, refunded, open_status, CorrelationKeys, Datetime, naive, aware,
  Expectation, Observation, ReconciliationResult, match,
}
use financial_control_engine.Matching.Controls.{evaluate_expectation_centric}
use financial_control_engine.Matching.Matches.{Matched, expectation-Matched}

abbrev str : ℤ → String
str n = "n"

abbrev keys : Option String → CorrelationKeys
keys ref = record {
  internal_ref = ref;
  provider_ref = none;
  provider = none;
  domain = none;
  observation_type = none;
}

abbrev expected : Expectation
expected = record {
  domain = "payments";
  expected_canonical_status = failed;
  expected_amount = pos 700;
  currency = "INR";
  source_system = "orders";
  correlation_keys = keys (some "order_1");
  expectation_id = "e1";
  business_status = open_status;
  created_at = pos 0;
}

abbrev seen : String → Option String → CanonicalStatus → Datetime → String → Observation
seen provider ref status at id = record {
  provider = provider;
  provider_reference = id;
  observation_type = "api_response";
  canonical_status = status;
  observed_amount = pos 700;
  currency = "INR";
  events = [];
  evidence_ids = [];
  correlation_keys = keys ref;
  provider_event_id = none;
  provider_version = some "";
  observed_at = at;
  ingestion_event_id = id;
  observation_id = id;
}

abbrev together : List Observation
together =
    seen "Razorpay" (some "order_1") settled (naive (pos 3)) "o1"
    ∷ seen "razorpay" (some "order_1") refunded (aware (pos 4)) "o2"
    ∷ []

abbrev matched : ReconciliationResult
matched = record {
  expectation_id = some "e1";
  observation_ids = "o1" ∷ "o2" ∷ [];
  outcome = match;
  reconciliation_reason = "Matched all qualifying controls";
  discrepancy_reason = none;
}

match_run : evaluate_expectation_centric str expected together (pos 9) ≡ some matched
unfolding evaluate_expectation_centric lower
match_run = refl

expectation-Matched_example : Matched expected together
expectation-Matched_example = expectation-Matched str expected together (pos 9) match_run refl
