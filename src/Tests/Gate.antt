-- ===== src/Tests/Gate.antt =====
-- The governance gate at a concrete database.
use financial_control_engine.Base.{
  String, ◌≡◌, ◌≢◌, ◌↔◌, refl, true, List, [], ◌∷◌, none, some, All, arith,
}
use financial_control_engine.Base.Int.{pos, ◌+ℤ◌}
use financial_control_engine.Lifecycle.{actionable}
use financial_control_engine.Incidents.Records.{IncidentRecord}
use financial_control_engine.Core.Models.{refund_payment, repair_merchant_state}
use financial_control_engine.Core.Actuation.{Encoders, generate_idempotency_key, MutationPayload}
use financial_control_engine.Governance.Models.{
  enabled, paused, daily, ActionBudget, allowed, blocked_by_budget, ControlPlaneState,
}
use financial_control_engine.Governance.Storage.{
  OperatorAction, escalate, get_control_plane_state, update_control_plane_state_occ, get_budget,
  save_budget, update_budget_occ, save_operator_action, get_operator_actions_for_incident,
}
use financial_control_engine.Governance.Updates.{second_update_iff, charge_overwritten}
use financial_control_engine.Governance.Effects.{Effects, allowed-Effects}
use financial_control_engine.Governance.Gate.{
  Database, find_plane, find_budget, Request, evaluate_and_claim,
}
use financial_control_engine.Governance.Budgets.{
  WithinLimits, evaluate_all, Charged, evaluate_all_charges, count_allowed, sum_allowed,
}
use financial_control_engine.Governance.Idempotency.{intent_claimed_once}

abbrev enc : Encoders
enc = record { dumps = λ (p : MutationPayload). "{}"; sha256 = λ (s : String). s }

abbrev incident : IncidentRecord
incident = record {
  active_subject = "pay_1";
  discrepancy_reason = "MISSING_REFUND";
  incident_id = "inc_1";
  state = actionable;
  lease_owner = none;
  lease_expires_at = none;
  hypothesis_payload = none;
  retry_count = 0;
  next_retry_at = none;
  version = 3;
  created_at = 0;
}

abbrev budget : ActionBudget
budget = record {
  budget_id = "REFUND_PAYMENT";
  target_action = "REFUND_PAYMENT";
  period = daily;
  count_limit = 2;
  monetary_limit = pos 1000;
  currency = "INR";
  count_used = 0;
  monetary_used = pos 0;
  updated_at = 0;
  version = 1;
}

abbrev start : Database
start = record {
  control_planes = [];
  budgets = budget ∷ [];
  incidents = incident ∷ [];
  actuations = [];
}

abbrev stopped : Database
stopped = record start {
  control_planes =
      record {
        id = "GLOBAL";
        automation_state = paused;
        reason = some "drill";
        updated_by = "ops";
        updated_at = 0;
        version = 1;
      }
      ∷ [];
}

abbrev refund_request : Request
refund_request = record {
  intent = record {
    action = refund_payment;
    target_id = "pay_1";
    amount = some (pos 700);
    currency = some "INR";
    reason = none;
    expected_provider_state = none;
  };
  execution_identity = "pay_1";
  discrepancy_reason = "MISSING_REFUND";
  incident_version = 3;
  budget_id = "REFUND_PAYMENT";
  budget_amount = pos 700;
  record_id = "act_1";
  now = 10;
}

-- The same refund again, at the version that the first claim leaves.
abbrev second_request : Request
second_request = record refund_request {
  incident_version = 4;
  record_id = "act_2";
  budget_amount = pos 1;
}

-- Another action at the version of the first.
abbrev repair_request : Request
repair_request = record refund_request {
  intent = record refund_request.intent { action = repair_merchant_state };
  record_id = "act_3";
  budget_amount = pos 1;
}

first_allowed : (evaluate_and_claim enc refund_request start).0.status ≡ allowed
unfolding evaluate_and_claim ◌+ℤ◌ generate_idempotency_key
first_allowed = refl

second_failed :
    (evaluate_and_claim enc second_request (evaluate_and_claim enc refund_request start).1).0.reason
    ≡ "Integrity error during claim"
unfolding evaluate_and_claim ◌+ℤ◌ generate_idempotency_key
second_failed = refl

repair_failed :
    (evaluate_and_claim enc repair_request (evaluate_and_claim enc refund_request start).1).0.reason
    ≡ "Incident OCC claim failed"
unfolding evaluate_and_claim ◌+ℤ◌ generate_idempotency_key
repair_failed = refl

over_limit :
    (evaluate_and_claim enc (record refund_request { budget_amount = pos 1001 }) start).0.status
    ≡ blocked_by_budget
unfolding evaluate_and_claim ◌+ℤ◌ generate_idempotency_key
over_limit = refl

is_blocked : (evaluate_and_claim enc refund_request stopped).0.status ≢ allowed
unfolding evaluate_and_claim ◌+ℤ◌ generate_idempotency_key
is_blocked = λ e. cc

budget_within : All WithinLimits start.budgets
budget_within = ((ground arith, ground arith), tt)

allowed-Effects_example :
    Effects enc refund_request start
      (evaluate_and_claim enc refund_request start).1
      (evaluate_and_claim enc refund_request start).0
allowed-Effects_example = allowed-Effects enc refund_request start first_allowed

abbrev both_requests : List Request
both_requests = refund_request ∷ second_request ∷ []

evaluate_all_charges_example :
    let (ds, last) = evaluate_all enc both_requests start in
    (b : ActionBudget) × (find_budget "REFUND_PAYMENT" last.budgets ≡ some b)
    × Charged budget b (count_allowed "REFUND_PAYMENT" ds) (sum_allowed "REFUND_PAYMENT" ds)
evaluate_all_charges_example =
    evaluate_all_charges enc both_requests start "REFUND_PAYMENT" refl (ground arith, ground arith)

intent_claimed_once_example :
    let after =
      (evaluate_all enc (repair_request ∷ []) (evaluate_and_claim enc refund_request start).1).1 in
    (evaluate_and_claim enc second_request after).0.status ≢ allowed
intent_claimed_once_example =
    intent_claimed_once enc refund_request second_request (repair_request ∷ []) start first_allowed
      refl refl

-- A pause and an update that has read the same version, of a table without the row.
abbrev pause : ControlPlaneState
pause = record {
  id = "GLOBAL";
  automation_state = paused;
  reason = some "incident";
  updated_by = "alice";
  updated_at = 5;
  version = 1;
}

abbrev resume : ControlPlaneState
resume = record pause { automation_state = enabled; updated_by = "bob"; updated_at = 6 }

lost_pause_run :
    let (first, after) = update_control_plane_state_occ pause 5 [] in
    let (second, last) = update_control_plane_state_occ resume 6 after in
    (first ≡ true)
    × (second ≡ true)
    × ((get_control_plane_state "GLOBAL" 7 last).version ≡ 2)
    × ((get_control_plane_state "GLOBAL" 7 last).automation_state ≡ enabled)
unfolding update_control_plane_state_occ get_control_plane_state
lost_pause_run = (refl, refl, refl, refl)

second_update_iff_example :
    let after = (update_control_plane_state_occ pause 5 []).1 in
    ((update_control_plane_state_occ resume 6 after).0 ≡ true) ↔ (find_plane "GLOBAL" [] ≡ none)
unfolding update_control_plane_state_occ
second_update_iff_example = second_update_iff pause resume 5 6 [] refl refl refl

charge_overwritten_example :
    let charged = (evaluate_and_claim enc refund_request start).1.budgets in
    let (done, after) = update_budget_occ budget 9 charged in
    (done ≡ true)
    × ((x : ActionBudget) × (find_budget "REFUND_PAYMENT" after ≡ some x)
        × (x.count_used ≡ 0)
        × (x.monetary_used ≡ pos 0))
charge_overwritten_example = charge_overwritten enc refund_request start 9 first_allowed refl

abbrev escalation : OperatorAction
escalation = record {
  incident_id = "inc_1";
  operator_id = "alice";
  action_type = escalate;
  reason = "check";
  resulting_intent_id = none;
  action_id = "op_1";
  timestamp = 4;
}

operator_run :
    let earlier = record escalation { action_id = "op_2"; timestamp = 3 } in
    let rows = save_operator_action escalation (save_operator_action earlier (escalation ∷ [])) in
    get_operator_actions_for_incident "inc_1" rows ≡ earlier ∷ escalation ∷ []
unfolding save_operator_action get_operator_actions_for_incident
operator_run = refl

save_budget_run :
    get_budget "REFUND_PAYMENT" (save_budget (record budget { count_limit = 9 }) (budget ∷ []))
    ≡ some (record budget { count_limit = 9 })
unfolding save_budget get_budget
save_budget_run = refl
