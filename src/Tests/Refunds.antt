-- ===== src/Tests/Refunds.antt =====
-- Reconciliation and refund control at concrete inputs.
use financial_control_engine.Base.{
  ◌≡◌, ◌↔◌, refl, [], ◌∷◌, none, some, ok, true, false, All, upper, strip,
}
use financial_control_engine.Base.Int.{ℤ, pos, ◌+ℤ◌, ◌≤ℤ◌}
use financial_control_engine.StateEngine.Models.{
  contradicted, executed, refund_intent, authoritative_not_executed, ReconstructedState,
  ProviderQueryConfidence,
}
use financial_control_engine.StateEngine.Execution.{ShowsNoExecution}
use financial_control_engine.StateEngine.Reconstruct.{claim_of, reconstruct_state}
use financial_control_engine.Reconcile.Models.{
  aware, match, in_flight_pending, absent_execution, ExpectedRefund, ReconciliationResult,
  not_executed_confirmed, within_grace, expectation_satisfied, reconciliation_deadline,
}
use financial_control_engine.Reconcile.Engine.{reconcile, outcome}
use financial_control_engine.Reconcile.Classification.{
  ProvesAbsence, IsSatisfied, absent_execution_iff, match_iff, contradicted_classified,
}
use financial_control_engine.Control.Eligibility.{Refund, allow_refund, evaluate_refund_eligibility}
use financial_control_engine.Control.Provider.{ProviderResponse}
use financial_control_engine.Control.Safety.{absent_refund_safe, executed_state_allowed}
use financial_control_engine.Tests.State.{
  found_nothing, found_execution, absent_state, absent_reconstructed,
}

abbrev expectation : ExpectedRefund
expectation = record {
  refund_intent_id = "ri_1";
  provider_payment_id = "pay_1";
  amount = pos 500;
  currency = "INR";
  created_at = pos 0;
  sla_seconds = 300;
  source_system = "OMS";
  business_reason = "";
  originating_trace_id = "t1";
  expectation_id = "e1";
}

-- One microsecond past the deadline.
abbrev late : ℤ
late = pos 300000001

abbrev executed_state : ReconstructedState
executed_state = record absent_state { execution = some executed }

abbrev clash_state : ReconstructedState
clash_state = record absent_state { knowledge_state = contradicted; execution = none }

abbrev absent_result : ReconciliationResult
absent_result =
    outcome expectation absent_state late absent_execution true none none
      (not_executed_confirmed (pos 300000000))

absent_run :
    reconcile (some expectation) (some absent_state) (aware late) none none (pos 1)
    ≡ ok absent_result
unfolding reconcile ◌+ℤ◌
absent_run = refl

absent_execution_iff_example :
    (absent_result.discrepancy_type ≡ absent_execution)
    ↔ ProvesAbsence (some expectation) (some absent_state) (aware late)
absent_execution_iff_example =
    absent_execution_iff (some expectation) (some absent_state) (aware late) none none (pos 1)
      absent_run

abbrev match_result : ReconciliationResult
match_result =
    outcome expectation executed_state late match false (some (pos 500)) (some "INR")
      expectation_satisfied

match_run :
    reconcile
      (some expectation)
      (some executed_state)
      (aware late)
      (some (pos 500))
      (some " inr")
      (pos 1)
    ≡ ok match_result
unfolding reconcile ◌+ℤ◌ upper strip
match_run = refl

match_iff_example :
    (match_result.discrepancy_type ≡ match)
    ↔ IsSatisfied expectation executed_state (some (pos 500)) (some " inr") (pos 1)
match_iff_example =
    match_iff expectation executed_state late (some (pos 500)) (some " inr") (pos 1) match_run

abbrev early_clash_result : ReconciliationResult
early_clash_result =
    outcome expectation clash_state (pos 5) in_flight_pending false none none
      (within_grace (pos 300000000))

early_clash_run :
    reconcile (some expectation) (some clash_state) (aware (pos 5)) none none (pos 1)
    ≡ ok early_clash_result
unfolding reconcile ◌+ℤ◌
early_clash_run = refl

contradicted_classified_example : early_clash_result.discrepancy_type ≡ in_flight_pending
unfolding ◌+ℤ◌
contradicted_classified_example =
    contradicted_classified expectation clash_state (pos 5) none none (pos 1) refl early_clash_run

abbrev refund : Refund
refund = record {
  provider_payment_id = "pay_1";
  amount = pos 500;
  currency = "INR";
  refund_intent_id = "ri_1";
  business_reason = "cancelled";
  refund_id = "r1";
}

absent_refund_safe_example :
    (reconciliation_deadline expectation ≤ℤ late)
    × All ShowsNoExecution (found_nothing ∷ [])
    × (((evaluate_refund_eligibility absent_state authoritative_not_executed refund
            "inc_1").decision
          ≡ allow_refund)
        ↔ (◌≡◌ {A = ProviderQueryConfidence} authoritative_not_executed authoritative_not_executed))
unfolding ◌+ℤ◌
absent_refund_safe_example =
    absent_refund_safe refund_intent "ri_1" (found_nothing ∷ []) (pos 9) absent_reconstructed
      expectation late none none (pos 1) authoritative_not_executed refund "inc_1" absent_run refl

executed_state_allowed_example :
    (s : ReconstructedState) × (reconstruct_state refund_intent "ri_1"
        (found_execution ∷ [])
        (pos 9)
      ≡ ok s)
    × (s.execution ≡ some executed)
    × ((evaluate_refund_eligibility s authoritative_not_executed refund "inc_1").decision
        ≡ allow_refund)
unfolding claim_of
executed_state_allowed_example =
    executed_state_allowed refund_intent "ri_1" found_execution (pos 9) refund "inc_1" refl refl

abbrev found : ProviderResponse
found = record {
  raw_status = "200";
  is_cached_response = false;
  is_partial_lookup = false;
  network_timeout = false;
  refund_exists = true;
  is_idempotency_mismatch = false;
  is_transient_conflict = false;
  is_explicit_rejection = false;
}
