-- ===== src/Governance/Gate.antt =====
-- `GovernanceGate.evaluate_and_claim` of src/engine/governance_gate.py: one transaction over the
-- control plane, the budgets, the incidents and the actuation records. A transaction that does not
-- commit leaves the database as it was.
use financial_control_engine.Base.{
  ℕ, ◌+◌, String, ◌==◌, Bool, true, false, ◌&&◌, ◌||◌, List, [], ◌∷◌, ◌++◌, any, Option, none, some,
  Result, ok, err, if◌then◌else◌, nat_eq,
}
use financial_control_engine.Base.Int.{ℤ}
use financial_control_engine.Lifecycle.{IncidentState, actuation_pending}
use financial_control_engine.Incidents.Records.{IncidentRecord, Key, has_key}
use financial_control_engine.Core.Models.{
  RecoveryAction, refund_payment, repair_merchant_state, escalate, action_value, RecoveryIntent,
}
use financial_control_engine.Core.Actuation.{
  ActuationRecord, pending, Encoders, mutation_payload, generate_canonical_payload,
  generate_idempotency_key,
}
use financial_control_engine.Governance.Models.{
  AutomationState, enabled, paused, ControlPlaneState, ActionBudget, consume, BudgetError,
  GovernanceGateDecision, allowed, blocked_by_kill_switch, blocked_by_budget, claim_failed,
  GateDecision,
}

-- The tables that the gate reads and writes.
pub record Database : Type 0 where
  pub control_planes : List ControlPlaneState
  pub budgets : List ActionBudget
  pub incidents : List IncidentRecord
  pub actuations : List ActuationRecord

-- `filter_by(id="GLOBAL").first()`
abbrev pub find_plane : String → List ControlPlaneState → Option ControlPlaneState
find_plane id [] = none
find_plane id (p ∷ ps) = if p.id == id then some p else find_plane id ps

abbrev pub is_paused : AutomationState → Bool
is_paused paused = true
is_paused enabled = false

abbrev pub plane_blocks : Option ControlPlaneState → Bool
plane_blocks none = false
plane_blocks (some p) = is_paused p.automation_state

-- `filter_by(budget_id=budget_id).first()`
abbrev pub find_budget : String → List ActionBudget → Option ActionBudget
find_budget id [] = none
find_budget id (b ∷ bs) = if b.budget_id == id then some b else find_budget id bs

-- The attributes of the first row with the id are assigned.
abbrev pub put_budget : ActionBudget → List ActionBudget → List ActionBudget
put_budget b [] = []
put_budget b (x ∷ xs) =
    if x.budget_id == b.budget_id
    then record x {
      count_used = b.count_used;
      monetary_used = b.monetary_used;
      updated_at = b.updated_at;
      version = b.version;
    }
      ∷ xs
    else x ∷ put_budget b xs

-- The filter of the claim: subject, reason and the version that was read.
abbrev pub claimable : Key → ℕ → IncidentRecord → Bool
claimable k version r = has_key k r && nat_eq r.version version

-- `.update({'state': …, 'version': version + 1})` on the rows of the filter
unfoldable pub claim_rows : Key → ℕ → IncidentState → List IncidentRecord → List IncidentRecord
claim_rows k version state [] = []
claim_rows k version state (r ∷ rs) =
    (if claimable k version r then record r { state = state; version = r.version + 1 } else r)
    ∷ claim_rows k version state rs

-- The unique columns of `SubstrateActuationRecord`.
abbrev pub is_taken : ActuationRecord → ActuationRecord → Bool
is_taken x r = r.idempotency_key == x.idempotency_key || r.record_id == x.record_id

abbrev decide : GovernanceGateDecision → String → GateDecision
decide status reason = record { status = status; reason = reason; actuation_record = none }

abbrev provider_name : RecoveryAction → String
provider_name refund_payment = "razorpay"
provider_name repair_merchant_state = "merchant"
provider_name escalate = "merchant"

-- The arguments of `evaluate_and_claim`, with the fresh record id and the time of the call.
pub record Request : Type 0 where
  pub intent : RecoveryIntent
  pub execution_identity : String
  pub discrepancy_reason : String
  pub incident_version : ℕ
  pub budget_id : String
  pub budget_amount : ℤ
  pub record_id : String
  pub now : ℕ

abbrev pub request_key : Request → Key
request_key q = record { subject = q.execution_identity; reason = q.discrepancy_reason }

-- The PENDING record of the claim.
unfoldable pub pending_record : Encoders → Request → ActuationRecord
pending_record enc q =
    let canonical = generate_canonical_payload enc (mutation_payload q.intent) in
    record {
      execution_identity = q.execution_identity;
      intent_action = action_value q.intent.action;
      target_id = q.intent.target_id;
      mutation_parameters_canonical = canonical;
      idempotency_key =
          generate_idempotency_key enc q.execution_identity (action_value q.intent.action)
            q.intent.target_id canonical;
      provider = provider_name q.intent.action;
      state = pending;
      record_id = q.record_id;
      created_at = q.now;
      updated_at = q.now;
    }

-- Steps 3 and 4: the claim of the incident and the PENDING record, then the commit.
unfoldable pub claim : Encoders → Request → ActionBudget → Database → GateDecision × Database
unfolding claim_rows pending_record
claim enc q b db =
    let k = request_key q in
    let record_of_claim = pending_record enc q in
    if any (claimable k q.incident_version) db.incidents
    then if any (is_taken record_of_claim) db.actuations
      then (decide claim_failed "Integrity error during claim", db)
      else (
        record { status = allowed; reason = "Claimed"; actuation_record = some record_of_claim },
        record db {
          budgets = put_budget b db.budgets;
          incidents = claim_rows k q.incident_version actuation_pending db.incidents;
          actuations = db.actuations ++ record_of_claim ∷ [];
        },
      )
    else (decide claim_failed "Incident OCC claim failed", db)

abbrev after_budget :
    Encoders → Request → Database → Result BudgetError ActionBudget → GateDecision × Database
after_budget enc q db (err e) = (decide blocked_by_budget "Budget exhausted", db)
after_budget enc q db (ok b) = claim enc q b db

-- Step 2: the budget is read and consumed.
abbrev with_budget : Encoders → Request → Database → Option ActionBudget → GateDecision × Database
with_budget enc q db none = (decide blocked_by_budget "Budget not found", db)
with_budget enc q db (some b) = after_budget enc q db (consume b q.budget_amount q.now)

-- `evaluate_and_claim`
unfoldable pub evaluate_and_claim : Encoders → Request → Database → GateDecision × Database
unfolding consume claim
evaluate_and_claim enc q db =
    if plane_blocks (find_plane "GLOBAL" db.control_planes)
    then (decide blocked_by_kill_switch "Automation is paused", db)
    else with_budget enc q db (find_budget q.budget_id db.budgets)
