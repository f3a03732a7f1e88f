-- ===== src/Reconcile/Engine.antt =====
-- `reconcile` of src/reconciliation/engine.py, section by section.
use financial_control_engine.Base.{
  String, ◌==◌, Bool, true, false, not, ◌&&◌, ◌||◌, [], Option, none, some, Result, ok, err,
  if◌then◌else◌, is_empty, is_some, strip, upper,
}
use financial_control_engine.Base.Int.{ℤ, pos, ltb_ℤ, leb_ℤ, eq_ℤ}
use financial_control_engine.StateEngine.Models.{
  ObservedFinancialState, refunded, failed, KnowledgeState, verified, unknown, ExecutionState,
  executed, not_executed, ReconstructedState,
}
use financial_control_engine.Reconcile.Models.{
  Datetime, naive, aware, DiscrepancyType, match, in_flight_pending, epistemic_stalemate,
  absent_execution, value_mismatch, currency_mismatch, contradictory_terminality,
  orphaned_execution, excess_effect, ExpectedRefund, reconciliation_deadline, Details,
  orphan_without_expectation, orphan_without_execution, no_observations, many_executions,
  terminal_failure, expectation_satisfied, currency_differs, value_differs, within_grace,
  not_executed_confirmed, proof_incomplete, ReconciliationResult,
}

-- The `ValueError`s of `reconcile`.
pub data ReconcileError : Type 0 where
  nothing_provided naive_timestamp mismatched_intent : ReconcileError

abbrev pub is_verified : KnowledgeState → Bool
is_verified verified = true
is_verified _ = false

abbrev pub is_executed_state : Option ExecutionState → Bool
is_executed_state (some executed) = true
is_executed_state _ = false

abbrev pub is_not_executed_state : Option ExecutionState → Bool
is_not_executed_state (some not_executed) = true
is_not_executed_state _ = false

abbrev pub is_refunded_state : Option ObservedFinancialState → Bool
is_refunded_state (some refunded) = true
is_refunded_state _ = false

abbrev pub is_failed_state : Option ObservedFinancialState → Bool
is_failed_state (some failed) = true
is_failed_state _ = false

-- `is_executed`
abbrev pub is_executed : ReconstructedState → Bool
is_executed s = is_executed_state s.execution || is_refunded_state s.observed_financial_state

-- `if observed_currency`: neither `None` nor empty
abbrev pub has_text : Option String → Bool
has_text none = false
has_text (some c) = not (is_empty c)

-- `observed_currency.strip().upper()`
abbrev pub normalized : Option String → String
normalized none = ""
normalized (some c) = upper (strip c)

unfoldable pub amount_differs : Option ℤ → ℤ → Bool
amount_differs none expected = false
amount_differs (some a) expected = not (eq_ℤ a expected)

abbrev amount_or : Option ℤ → ℤ → ℤ
amount_or none expected = expected
amount_or (some a) expected = a

-- Section 1: provider reality with no expectation.
unfoldable pub reconcile_orphan :
    ReconstructedState → ℤ → Option ℤ → Option String → ReconciliationResult
reconcile_orphan s now observed_amount observed_currency = record {
  expectation_id = none;
  intent_id = s.entity_id;
  discrepancy_type = if is_executed s then orphaned_execution else epistemic_stalemate;
  is_actionable = false;
  reconciliation_timestamp = now;
  expected_amount = none;
  expected_currency = none;
  observed_amount = observed_amount;
  observed_currency = observed_currency;
  observed_knowledge_state = s.knowledge_state;
  reconstructed_state_ids = s.observation_ids;
  details = if is_executed s then orphan_without_expectation else orphan_without_execution;
}

-- Section 2: an expectation with no provider evidence.
unfoldable pub reconcile_unobserved : ExpectedRefund → ℤ → ReconciliationResult
reconcile_unobserved e now =
    let is_past_deadline = leb_ℤ (reconciliation_deadline e) now in
    record {
      expectation_id = some e.expectation_id;
      intent_id = e.refund_intent_id;
      discrepancy_type = if is_past_deadline then epistemic_stalemate else in_flight_pending;
      is_actionable = is_past_deadline;
      reconciliation_timestamp = now;
      expected_amount = some e.amount;
      expected_currency = some e.currency;
      observed_amount = none;
      observed_currency = none;
      observed_knowledge_state = unknown;
      reconstructed_state_ids = [];
      details = no_observations is_past_deadline (reconciliation_deadline e);
    }

-- The fields that sections 4 to 7 fill alike.
abbrev pub outcome :
    ExpectedRefund
    → ReconstructedState
    → ℤ
    → DiscrepancyType
    → Bool
    → Option ℤ
    → Option String
    → Details
    → ReconciliationResult
outcome e s now discrepancy actionable amount currency details = record {
  expectation_id = some e.expectation_id;
  intent_id = e.refund_intent_id;
  discrepancy_type = discrepancy;
  is_actionable = actionable;
  reconciliation_timestamp = now;
  expected_amount = some e.amount;
  expected_currency = some e.currency;
  observed_amount = amount;
  observed_currency = currency;
  observed_knowledge_state = s.knowledge_state;
  reconstructed_state_ids = s.observation_ids;
  details = details;
}

-- Section 6: a verified execution is held against the expected currency and amount.
unfoldable pub reconcile_executed :
    ExpectedRefund → ReconstructedState → ℤ → Option ℤ → Option String → ReconciliationResult
unfolding amount_differs
reconcile_executed e s now observed_amount observed_currency =
    let eff_currency =
      some (if has_text observed_currency then normalized observed_currency else e.currency) in
    let eff_amount = some (amount_or observed_amount e.amount) in
    if has_text observed_currency && not (normalized observed_currency == upper (strip e.currency))
    then outcome e s now currency_mismatch false eff_amount eff_currency
        (currency_differs e.currency observed_currency)
    else if amount_differs observed_amount e.amount
    then outcome e s now value_mismatch false eff_amount eff_currency
        (value_differs e.amount observed_amount)
    else outcome e s now match false eff_amount eff_currency expectation_satisfied

-- Section 7: states without a verified execution, by the deadline.
unfoldable pub reconcile_unexecuted :
    ExpectedRefund → ReconstructedState → ℤ → Option ℤ → Option String → ReconciliationResult
reconcile_unexecuted e s now observed_amount observed_currency =
    let deadline = reconciliation_deadline e in
    if leb_ℤ deadline now
    then if is_verified s.knowledge_state
        && is_not_executed_state s.execution
        && not (is_some s.observed_financial_state)
      then outcome e s now absent_execution true none none (not_executed_confirmed deadline)
      else outcome e s now epistemic_stalemate true observed_amount observed_currency
          (proof_incomplete s.knowledge_state deadline)
    else outcome e s now in_flight_pending false observed_amount observed_currency
        (within_grace deadline)

-- Sections 4 to 7, for an expectation and a state of the same intent.
unfoldable pub reconcile_correlated :
    ExpectedRefund → ReconstructedState → ℤ → Option ℤ → Option String → ℤ → ReconciliationResult
unfolding reconcile_executed reconcile_unexecuted
reconcile_correlated e s now observed_amount observed_currency executions =
    if ltb_ℤ (pos 1) executions && is_executed s
    then outcome e s now excess_effect false observed_amount observed_currency
        (many_executions executions)
    else if is_verified s.knowledge_state && is_failed_state s.observed_financial_state
    then outcome e s now contradictory_terminality false observed_amount observed_currency
        terminal_failure
    else if is_verified s.knowledge_state && is_executed s
    then reconcile_executed e s now observed_amount observed_currency
    else reconcile_unexecuted e s now observed_amount observed_currency

-- Sections 1 to 3, which choose by what is provided.
abbrev reconcile_at :
    Option ExpectedRefund
    → Option ReconstructedState
    → ℤ
    → Option ℤ
    → Option String
    → ℤ
    → Result ReconcileError ReconciliationResult
reconcile_at none none now amount currency executions = err nothing_provided
reconcile_at none (some s) now amount currency executions =
    ok (reconcile_orphan s now amount currency)
reconcile_at (some e) none now amount currency executions = ok (reconcile_unobserved e now)
reconcile_at (some e) (some s) now amount currency executions =
    if s.entity_id == e.refund_intent_id
    then ok (reconcile_correlated e s now amount currency executions)
    else err mismatched_intent

abbrev missing : Option ExpectedRefund → Option ReconstructedState → Bool
missing e s = not (is_some e) && not (is_some s)

-- `reconcile`
unfoldable pub reconcile :
    Option ExpectedRefund
    → Option ReconstructedState
    → Datetime
    → Option ℤ
    → Option String
    → ℤ
    → Result ReconcileError ReconciliationResult
unfolding reconcile_orphan reconcile_unobserved reconcile_correlated
reconcile e s (naive t) amount currency executions =
    if missing e s then err nothing_provided else err naive_timestamp
reconcile e s (aware now) amount currency executions =
    reconcile_at e s now amount currency executions
