-- ===== src/Control/Eligibility.antt =====
-- `evaluate_refund_eligibility` of src/control/policy.py.
use financial_control_engine.Base.{
  String, Bool, true, false, not, Option, some, if◌then◌else◌, is_some,
}
use financial_control_engine.Base.Int.{ℤ}
use financial_control_engine.StateEngine.Models.{
  KnowledgeState, ProviderQueryConfidence, authoritative_not_executed, ReconstructedState,
}
use financial_control_engine.Reconcile.Engine.{is_verified}

-- `class Refund`
pub record Refund : Type 0 where
  pub provider_payment_id : String
  pub amount : ℤ
  pub currency : String
  pub refund_intent_id : String
  pub business_reason : String
  pub refund_id : String

-- `class ActionDecision`
pub data ActionDecision : Type 0 where
  allow_refund no_action escalate : ActionDecision

-- The reason of a decision, by the branch that states it.
pub data Reason : Type 0 where
  not_verified financial_state_exists preconditions_satisfied : Reason
  confidence_insufficient : ProviderQueryConfidence → Reason

-- `class AuthorizationProvenance`; the two entries of `verified_facts` are fields of their own.
pub record AuthorizationProvenance : Type 0 where
  pub incident_id : String
  pub control_rule : String
  pub knowledge_state : KnowledgeState
  pub provider_query_confidence : ProviderQueryConfidence
  pub atomic_precondition : String
  pub authorized : Bool
  pub reason : Reason

-- `class ControlDecision`
pub record ControlDecision : Type 0 where
  pub decision : ActionDecision
  pub reason : Reason
  pub provenance : Option AuthorizationProvenance

abbrev pub provenance_of :
    ReconstructedState → ProviderQueryConfidence → String → Bool → Reason → AuthorizationProvenance
provenance_of s confidence incident_id authorized reason = record {
  incident_id = incident_id;
  control_rule = "REFUND_ELIGIBILITY";
  knowledge_state = s.knowledge_state;
  provider_query_confidence = confidence;
  atomic_precondition = "NONE";
  authorized = authorized;
  reason = reason;
}

-- `_reject`
abbrev reject : ReconstructedState → ProviderQueryConfidence → String → Reason → ControlDecision
reject s confidence incident_id reason = record {
  decision = no_action;
  reason = reason;
  provenance = some (provenance_of s confidence incident_id false reason);
}

abbrev pub confirms_absence : ProviderQueryConfidence → Bool
confirms_absence authoritative_not_executed = true
confirms_absence _ = false

-- `evaluate_refund_eligibility`; the refund intent is not read.
unfoldable pub evaluate_refund_eligibility :
    ReconstructedState → ProviderQueryConfidence → Refund → String → ControlDecision
evaluate_refund_eligibility s confidence refund_intent incident_id =
    if not (is_verified s.knowledge_state)
    then reject s confidence incident_id not_verified
    else if is_some s.observed_financial_state
    then reject s confidence incident_id financial_state_exists
    else if not (confirms_absence confidence)
    then reject s confidence incident_id (confidence_insufficient confidence)
    else record {
      decision = allow_refund;
      reason = preconditions_satisfied;
      provenance = some (provenance_of s confidence incident_id true preconditions_satisfied);
    }
