-- ===== src/Control/Safety.antt =====
-- When a refund is authorised (src/control/policy.py), against the evidence of the state engine and
-- the classification of `reconcile`.
use financial_control_engine.Base.{
  ltb, length, String, ◌≡◌, ◌↔◌, refl, Bool, true, false, List, [], ◌∷◌, Option, none, some, ok,
  All, arith,
}
use financial_control_engine.Base.Int.{ℤ, ◌≤ℤ◌}
use financial_control_engine.StateEngine.Models.{
  verified, ProviderQueryConfidence, authoritative_not_executed, executed, EntityType,
  ProviderObservation, ReconstructedState,
}
use financial_control_engine.StateEngine.Reconstruct.{
  claim_of, claims_executed, conclude, add_terminal, in_scope, reconstruct_state,
}
use financial_control_engine.StateEngine.Execution.{ShowsNoExecution, not_executed_unseen}
use financial_control_engine.Reconcile.Models.{
  aware, absent_execution, ExpectedRefund, ReconciliationResult, reconciliation_deadline,
}
use financial_control_engine.Reconcile.Engine.{reconcile}
use financial_control_engine.Reconcile.Classification.{absent_execution_iff}
use financial_control_engine.Control.Eligibility.{
  provenance_of, ActionDecision, Refund, allow_refund, AuthorizationProvenance, ControlDecision,
  evaluate_refund_eligibility,
}

-- The decision is ALLOW_REFUND exactly when the state is VERIFIED with no financial state and the
-- provider's answer is AUTHORITATIVE_NOT_EXECUTED.
pub eligible_iff :
    (s : ReconstructedState) (confidence : ProviderQueryConfidence) (refund : Refund)
    (incident_id : String)
    → ((evaluate_refund_eligibility s confidence refund incident_id).decision ≡ allow_refund) ↔ (
        (s.knowledge_state ≡ verified)
        × (s.observed_financial_state ≡ none)
        × (confidence ≡ authoritative_not_executed))
unfolding evaluate_refund_eligibility
eligible_iff s confidence refund incident_id = ground arith

-- What the audit record of a decision has to say.
abbrev pub IsAccountedFor :
    ReconstructedState → ProviderQueryConfidence → String → ControlDecision → Type 0
IsAccountedFor s confidence incident_id d =
    (p : AuthorizationProvenance) × (d.provenance ≡ some p)
    × (p.incident_id ≡ incident_id)
    × (p.knowledge_state ≡ s.knowledge_state)
    × (p.provider_query_confidence ≡ confidence)
    × (p.reason ≡ d.reason)
    × ((p.authorized ≡ true) ↔ (d.decision ≡ allow_refund))

abbrev allows : ActionDecision → Bool
allows allow_refund = true
allows _ = false

allows_iff : (d : ActionDecision) → (allows d ≡ true) ↔ (d ≡ allow_refund)
allows_iff d = ground arith

-- Every decision carries a provenance record of the same incident, facts and reason, which says
-- "authorized" exactly when the decision is ALLOW_REFUND.
pub decision_accounted :
    (s : ReconstructedState) (confidence : ProviderQueryConfidence) (refund : Refund)
    (incident_id : String)
    → IsAccountedFor s confidence incident_id
        (evaluate_refund_eligibility s confidence refund incident_id)
unfolding evaluate_refund_eligibility
decision_accounted s confidence refund incident_id =
    let d = evaluate_refund_eligibility s confidence refund incident_id in
    (
      provenance_of s confidence incident_id (allows d.decision) d.reason,
      ground arith,
      refl,
      refl,
      refl,
      refl,
      allows_iff d.decision,
    )

module _ (entity_type : EntityType) (entity_id : String) (observations : List ProviderObservation)
    (reconstructed_at : ℤ) {s : ReconstructedState}
    (done : reconstruct_state entity_type entity_id observations reconstructed_at ≡ ok s) where
  -- Where `reconcile` calls the execution of an expected refund absent, the deadline has passed, and no
  -- observation that the state was reconstructed from is AUTHORITATIVE_EXECUTED, or has a concrete financial
  -- status without being AUTHORITATIVE_NOT_EXECUTED; and the refund is then allowed exactly if the
  -- provider's fresh answer is AUTHORITATIVE_NOT_EXECUTED.
  pub absent_refund_safe :
      (e : ExpectedRefund) (now : ℤ) (amount : Option ℤ) (currency : Option String) (executions : ℤ)
      {r : ReconciliationResult} (confidence : ProviderQueryConfidence) (refund : Refund)
      (incident_id : String)
      → reconcile (some e) (some s) (aware now) amount currency executions ≡ ok r
      → r.discrepancy_type ≡ absent_execution
      → (reconciliation_deadline e ≤ℤ now)
        × All ShowsNoExecution observations
        × (((evaluate_refund_eligibility s confidence refund incident_id).decision ≡ allow_refund)
            ↔ (confidence ≡ authoritative_not_executed))
  absent_refund_safe e now amount currency executions confidence refund incident_id run absent =
      let (late, known, unexecuted, bare) =
        (absent_execution_iff (some e) (some s) (aware now) amount currency executions run).0
          absent in
      let eligible = eligible_iff s confidence refund incident_id in
      (
        late,
        not_executed_unseen entity_type entity_id observations reconstructed_at done unexecuted,
        (λ d. (eligible.0 d).2, λ c. eligible.1 (known, bare, c)),
      )

lone_terminal : (status : Option String) → ltb 1 (length (add_terminal status [])) ≡ false
lone_terminal none = refl
lone_terminal (some s) = ground arith

conclude_executed :
    (t : EntityType) (i : String) (at : ℤ) (obs : ProviderObservation)
    → claim_of obs.payload ≡ claims_executed
    → let s = conclude t i at (obs ∷ []) in
      (s.execution ≡ some executed)
      × (s.knowledge_state ≡ verified)
      × (s.observed_financial_state ≡ none)
unfolding conclude
conclude_executed t i at obs claim = ground (arith, lone_terminal obs.payload.status)

-- One observation in scope is concluded from as it is.
reconstruct_lone :
    (t : EntityType) (i : String) (at : ℤ) (obs : ProviderObservation)
    → in_scope t i obs ≡ true
    → reconstruct_state t i (obs ∷ []) at ≡ ok (conclude t i at (obs ∷ []))
unfolding reconstruct_state
reconstruct_lone t i at obs scope = rw scope

-- Eligibility reads no execution state: after a single observation in which the provider confirms
-- the execution, a query answer of AUTHORITATIVE_NOT_EXECUTED still has the refund allowed.
pub executed_state_allowed :
    (entity_type : EntityType) (entity_id : String) (obs : ProviderObservation) (at : ℤ)
    (refund : Refund) (incident_id : String)
    → in_scope entity_type entity_id obs ≡ true
    → claim_of obs.payload ≡ claims_executed
    → (s : ReconstructedState) × (reconstruct_state entity_type entity_id (obs ∷ []) at ≡ ok s)
      × (s.execution ≡ some executed)
      × ((evaluate_refund_eligibility s authoritative_not_executed refund incident_id).decision
          ≡ allow_refund)
unfolding evaluate_refund_eligibility
executed_state_allowed entity_type entity_id obs at refund incident_id scope claim =
    let (x, v, b) = conclude_executed entity_type entity_id at obs claim in
    (
      conclude entity_type entity_id at (obs ∷ []),
      reconstruct_lone entity_type entity_id at obs scope,
      x,
      rw (v, b),
    )
