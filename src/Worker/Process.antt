-- ===== src/Worker/Process.antt =====
-- `V2ControlWorker._process_investigation` of src/engine/worker.py, in the order of its steps, while no
-- other worker writes. Metrics, logs and test hooks are left out.
mod Acting
unfoldable pub use Acting.*
use Prim.Native.String.{◌++◌ as join}
use financial_control_engine.Base.{
  ℕ, ◌+◌, ◌*◌, ◌^◌, String, lower, Bool, true, false, ◌&&◌, List, [], ◌∷◌, ◌++◌, Option, none, some,
  Result, ok, err, if◌then◌else◌, leb, is_some,
}
use financial_control_engine.Base.Int.{ℤ, pos}
use financial_control_engine.Lifecycle.{
  IncidentState, verifying, escalated_paused_by_kill_switch, escalated_budget_exhausted,
  escalated_policy_blocked, escalated_missing_evidence, escalated_mutation_failed,
  escalated_convergence_failed, escalated_unknown, resolved, state_eq,
}
use financial_control_engine.Core.Models.{
  RecoveryAction, refund_payment, repair_merchant_state, escalate, action_value, RecoveryIntent,
  Evidence, Expectation, Observation,
}
use financial_control_engine.Core.Actuation.{
  ActuationRecord, ActuationState, pending, success, rejected, timeout_unknown, converged,
  escalated,
}
use financial_control_engine.Governance.Models.{
  GateDecision, GovernanceGateDecision, allowed, blocked_by_kill_switch, blocked_by_budget,
  claim_failed,
}
use financial_control_engine.Governance.Gate.{Request}
use financial_control_engine.Incidents.Records.{IncidentRecord, Key, key_of}
use financial_control_engine.Incidents.Repository.{
  update_hypothesis, transition_to_actuating, transition_to_reobserving,
}
use financial_control_engine.Policy.Evaluate.{PolicyContext, evaluate}
use financial_control_engine.Substrate.Expectations.{get_expectation}
use financial_control_engine.Substrate.Observations.{find_observations}
use financial_control_engine.Substrate.Rows.{ObservationRow}
use financial_control_engine.Substrate.Results.{StoredResult}
use financial_control_engine.Investigation.Context.{
  InvestigationContext, AgentInput, expectation_of, assemble, format_context_for_investigation,
}
use financial_control_engine.Investigation.Hypotheses.{
  CausalHypothesis, RawOutput, model_validate, model_dump, ValidationRejectionReason,
  VerificationResult, VerificationStatus, succeeded, rejected, failed,
}
use financial_control_engine.Investigation.Validator.{validate}
use financial_control_engine.Worker.Runs.{
  World, Raised, transient, unexpected, Run, pure, raise, ask, attempt, transact, ◌>>=◌, ◌>>◌,
}
use financial_control_engine.Worker.Services.{Services, or_raise, reconciles, reconciles_context}
use financial_control_engine.Worker.Writes.{
  on_incidents, terminate, retry, commit_verification_success, persist_reobservation_and_resolve,
  ask_gate,
}
use financial_control_engine.Worker.Observer.{
  reobserve, observe_merchant_order, observe_provider_payment,
}
use financial_control_engine.Worker.Actuator.{execute_claimed_intent}
use financial_control_engine.Worker.Verifier.{verify}

-- The policy again, after an observation has changed.
unfoldable pub reconsider : Services → Task → InvestigationContext → Learned → Run Bool
unfolding reconciles_context commit_resolved decide enact
reconsider s t c l = do
  matches ← reconciles_context s c (known c l)
  if matches then commit_resolved s t l else enact s t c l (decide s t c l)

abbrev pub guarded : Services → Task → InvestigationContext → Learned → List Observation → Run Bool
guarded s t c l [] = enact s t c l (decide s t c l)
guarded s t c l (o ∷ os) = reconsider s t c (record l { observations = l.observations ++ o ∷ os })

-- The guard before an escalation: everything that is known is observed again.
unfoldable pub guard : Services → Task → InvestigationContext → Learned → Run Bool
unfolding reobserve reconsider enact decide
guard s t c l = do changed ← reobserve s (known c l); guarded s t c l changed

-- DECIDE, unless the verification has resolved the discrepancy.
unfoldable pub conclude : Services → Task → InvestigationContext → Learned → Run Bool
unfolding reconciles_context commit_resolved decide guard enact
conclude s t c l = do
  matches ← reconciles_context s c (known c l)
  if matches
      then commit_resolved s t l
      else if is_escalation (decide s t c l).action
      then guard s t c l
      else enact s t c l (decide s t c l)

-- What the results of the verification add up to: the first that failed or was rejected ends it.
pub data Verified : Type 0 where
  a_failure a_rejection : Verified
  learned : Learned → Verified

unfoldable pub collect : List VerificationResult → Learned → Verified
collect [] l = learned l
collect (r ∷ rs) l = elim r.status [
  | failed ↦ a_failure
  | rejected ↦ a_rejection
  | succeeded ↦ collect rs (record {
    evidence = l.evidence ++ r.new_evidence;
    observations = l.observations ++ r.new_observations;
  })
]

abbrev pub after_verification : Services → Task → InvestigationContext → Verified → Run Bool
after_verification s t c a_failure = retry_or_escalate s t escalated_missing_evidence
after_verification s t c a_rejection = terminate s (task_key t) escalated_missing_evidence
after_verification s t c (learned l) = conclude s t c l

abbrev pub nothing : Learned
nothing = record { evidence = []; observations = [] }

abbrev pub verify_hypothesis :
    Services → Task → InvestigationContext → Option CausalHypothesis → Run Bool
verify_hypothesis s t c none = terminate s (task_key t) escalated_unknown
verify_hypothesis s t c (some h) = do
  results ← verify s h c
  after_verification s t c (collect results nothing)

-- The validator's answer: a hypothesis that passes is stored.
abbrev pub keep_hypothesis :
    Services
    → Task
    → Result ValidationRejectionReason CausalHypothesis
    → Run (Option CausalHypothesis)
keep_hypothesis s t (err e) = pure none
keep_hypothesis s t (ok h) = do
  on_incidents s (λ _. update_hypothesis (task_key t) t.worker (s.dump h))
  pure (some h)

abbrev validated : Option RawOutput → Option CausalHypothesis
validated none = none
validated (some raw) = model_validate raw

abbrev pub loaded : Services → Option String → Result Raised (Option CausalHypothesis)
loaded s none = err unexpected
loaded s (some text) = elim (validated (s.load text)) [
  | none ↦ err unexpected
  | some h ↦ ok (some h)
]

abbrev pub can_reuse : Task → Bool
can_reuse t = state_eq t.incident.state verifying && is_some t.incident.hypothesis_payload

-- A3: the hypothesis of the record, or a new one.
unfoldable pub hypothesize : Services → Task → AgentInput → Run (Option CausalHypothesis)
unfolding model_validate validate model_dump
hypothesize s t input =
    if can_reuse t
    then ask (λ _. loaded s t.incident.hypothesis_payload)
    else ask (λ n. s.investigate n input) >>= λ h.
        keep_hypothesis s t (validate (model_dump h) input)

-- The body of the `try`.
unfoldable pub investigate : Services → Task → Run Bool
unfolding assemble format_context_for_investigation hypothesize verify collect conclude
    retry_or_escalate
investigate s t = do
  c ←
      query s
        (λ w. assemble (s.fresh w.tick) t.discrepancy w.expectations w.observations w.evidence)
  h ← hypothesize s t (format_context_for_investigation s.str s.iso c)
  verify_hypothesis s t c h

-- The `except` clauses.
unfoldable pub recover : Services → Task → Raised → Run Bool
unfolding retry_or_escalate
recover s t transient = retry_or_escalate s t escalated_unknown
recover s t unexpected = terminate s (task_key t) escalated_unknown

abbrev pub with_current :
    Option Expectation → List ObservationRow → Option (Expectation × List Observation)
with_current none rows = none
with_current (some e) rows = some (e, find_observations e.correlation_keys rows)

-- The expectation of the discrepancy with its current observations.
unfoldable pub current : Task → World → Option (Expectation × List Observation)
unfolding find_observations expectation_of
current t w =
    with_current (expectation_of t.discrepancy.result.expectation_id w.expectations) w.observations

abbrev pub is_stale : Services → Option (Expectation × List Observation) → Run Bool
is_stale s none = pure false
is_stale s (some (e, [])) = pure false
is_stale s (some (e, o ∷ os)) = reconciles s e (o ∷ os)

-- `_process_investigation`: the guard against stale events stands before the `try`.
unfoldable pub process_investigation : Services → Task → Run Bool
unfolding current reconciles investigate recover
process_investigation s t = do
  stale ← is_stale s (← query s (current t))
  if stale then terminate s (task_key t) resolved else attempt (investigate s t) (recover s t)
