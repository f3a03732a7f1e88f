-- ===== src/Worker/Actuator.antt =====
-- `ActuationEngine`, `RazorpayRefundActuator` and `MerchantRepairActuator` of src/engine/actuator.py.
use Prim.Native.String.{◌++◌ as join}
use financial_control_engine.Base.{
  ℕ, String, ◌==◌, Bool, true, false, [], ◌∷◌, ◌++◌, Option, none, some, Result, ok, err,
  if◌then◌else◌,
}
use financial_control_engine.Base.Int.{ℤ, pos}
use financial_control_engine.Core.Models.{
  RecoveryAction, refund_payment, repair_merchant_state, escalate, RecoveryIntent,
}
use financial_control_engine.Core.Actuation.{
  ActuationRecord, ActuationState, success, escalated, rejected, timeout_unknown, mutation_payload,
}
use financial_control_engine.Lifecycle.{actuation_pending}
use financial_control_engine.Incidents.Repository.{update_incident_state_occ}
use financial_control_engine.Governance.Gate.{pending_record}
use financial_control_engine.Worker.Runs.{
  ask, Mutation, Raised, unexpected, Run, pure, raise, attempt, ◌>>=◌, ◌>>◌, next,
}
use financial_control_engine.Worker.Services.{
  Services, ProviderFailure, client_error, network_error, other_error,
}
use financial_control_engine.Worker.Writes.{record_outcome, on_incidents}

-- `_map_simulator_result`
unfoldable pub map_simulator_result : String → ActuationState
map_simulator_result raw =
    if raw == "SUCCESS" then success else if raw == "REJECTED" then rejected else timeout_unknown

-- A mutation is sent, and the answer read: the request has left whatever the answer is.
unfoldable pub send : {A : Type 0} → Mutation → (ℕ → Result Raised A) → Run A
send m f w = (f w.tick, record (next w) { mutations = w.mutations ++ m ∷ [] })

abbrev pub mutation_of : RecoveryIntent → ActuationRecord → Mutation
mutation_of i r = record {
  action = i.action;
  target_id = r.target_id;
  idempotency_key = r.idempotency_key;
  payload = mutation_payload i;
}

-- The exceptions of `create_refund`, each caught.
abbrev refund_outcome : Result ProviderFailure (Unit {0}) → ActuationState
refund_outcome (ok _) = success
refund_outcome (err client_error) = rejected
refund_outcome (err network_error) = timeout_unknown
refund_outcome (err other_error) = timeout_unknown

-- `payload.get("amount", 0)`
abbrev amount_or_zero : Option ℤ → ℤ
amount_or_zero none = pos 0
amount_or_zero (some a) = a

abbrev repair_outcome : Result Raised String → Result Raised ActuationState
repair_outcome (err e) = err e
repair_outcome (ok raw) = ok (map_simulator_result raw)

-- `provider.execute(record.target_id, record.idempotency_key, payload)`
unfoldable pub execute :
    Services → RecoveryAction → RecoveryIntent → ActuationRecord → Run ActuationState
unfolding send map_simulator_result mutation_payload
execute s refund_payment i r =
    if s.has_provider
    then send (mutation_of i r) (λ n. ok (
        refund_outcome (
          s.create_refund n r.target_id (amount_or_zero i.amount) (join "fce_" r.target_id)
            r.idempotency_key)))
    else raise unexpected
execute s repair_merchant_state i r =
    send (mutation_of i r)
      (λ n. repair_outcome (s.update_merchant_order n r.target_id "PAID" i.expected_provider_state))
execute s escalate i r = pure rejected

-- Tx2 of `execute_claimed_intent`: the outcome is recorded.
abbrev pub record_state : Services → ActuationRecord → ActuationState → Run ActuationState
record_state s r outcome = do
  record_outcome s (λ n. record r { state = outcome; updated_at = s.clock n })
  pure outcome

-- The call outside of any transaction, each exception of which is an unknown outcome, and Tx2.
unfoldable pub sent_and_recorded : Services → RecoveryIntent → ActuationRecord → Run ActuationState
unfolding execute record_outcome
sent_and_recorded s i r = do
  outcome ← attempt (execute s i.action i r) (λ _. pure timeout_unknown)
  record_state s r outcome

abbrev pub has_actuator : RecoveryAction → Bool
has_actuator refund_payment = true
has_actuator repair_merchant_state = true
has_actuator escalate = false

-- `execute_claimed_intent`
unfoldable pub execute_claimed_intent :
    Services → RecoveryIntent → ActuationRecord → Run ActuationState
unfolding sent_and_recorded
execute_claimed_intent s i r =
    if has_actuator i.action then sent_and_recorded s i r else pure rejected

-- What `execute_intent` is called with.
pub record Execution : Type 0 where
  pub intent : RecoveryIntent
  pub execution_identity : String
  pub discrepancy_reason : String
  pub incident_version : ℕ

-- The record, with its fresh id: that of the gate's request, which asks for no budget.
abbrev pub new_record : Services → Execution → ℕ → ActuationRecord
new_record s x n = pending_record s.encoders (record {
  intent = x.intent;
  execution_identity = x.execution_identity;
  discrepancy_reason = x.discrepancy_reason;
  incident_version = x.incident_version;
  budget_id = "";
  budget_amount = pos 0;
  record_id = s.fresh n;
  now = s.clock n;
})

-- Tx1, first part: the claim of the incident at the version that was read.
abbrev pub claim_incident : Services → Execution → Run Bool
claim_incident s x = on_incidents s (λ n rows. ok (
    update_incident_state_occ
      (record { subject = x.execution_identity; reason = x.discrepancy_reason }) x.incident_version
      actuation_pending rows))

-- The PENDING record is committed before the call outside, and its outcome after it.
abbrev pub after_claim : Services → Execution → ActuationRecord → Bool → Run ActuationState
after_claim s x r true = record_outcome s (λ n. r) >> sent_and_recorded s x.intent r
after_claim s x r false = pure escalated

abbrev pub claimed_and_sent : Services → Execution → Run ActuationState
claimed_and_sent s x = do
  r ← ask (λ n. ok (new_record s x n))
  claimed ← claim_incident s x
  after_claim s x r claimed

-- `execute_intent`
unfoldable pub execute_intent : Services → Execution → Run ActuationState
unfolding sent_and_recorded record_outcome pending_record update_incident_state_occ
execute_intent s x = if has_actuator x.intent.action then claimed_and_sent s x else pure escalated
