-- ===== src/Worker/Process/Acting.antt =====
-- The end of `_process_investigation` (src/engine/worker.py): the policy, the governance gate, the
-- mutation and the observation of its outcome. Metrics, logs and test hooks are left out.
use Prim.Native.String.{◌++◌ as join}
use financial_control_engine.Base.{
  ℕ, ◌*◌, ◌^◌, String, lower, Bool, true, false, List, [], ◌∷◌, ◌++◌, Option, none, some, ok,
  if◌then◌else◌, leb,
}
use financial_control_engine.Base.Int.{ℤ, pos}
use financial_control_engine.Lifecycle.{
  IncidentState, escalated_paused_by_kill_switch, escalated_budget_exhausted,
  escalated_policy_blocked, escalated_mutation_failed, escalated_convergence_failed,
  escalated_unknown, resolved,
}
use financial_control_engine.Core.Models.{
  RecoveryAction, refund_payment, repair_merchant_state, escalate, action_value, RecoveryIntent,
  Evidence, Observation,
}
use financial_control_engine.Core.Actuation.{ActuationRecord, ActuationState, rejected, escalated}
use financial_control_engine.Governance.Models.{
  GovernanceGateDecision, allowed, blocked_by_kill_switch, blocked_by_budget, claim_failed,
}
use financial_control_engine.Governance.Gate.{Request}
use financial_control_engine.Incidents.Records.{IncidentRecord, Key, key_of}
use financial_control_engine.Incidents.Repository.{
  transition_to_actuating, transition_to_reobserving,
}
use financial_control_engine.Policy.Evaluate.{PolicyContext, evaluate}
use financial_control_engine.Substrate.Results.{StoredResult}
use financial_control_engine.Investigation.Context.{InvestigationContext}
use financial_control_engine.Investigation.Hypotheses.{rejected}
use financial_control_engine.Worker.Runs.{
  World, unexpected, Run, pure, raise, transact, ◌>>=◌, ◌>>◌,
}
use financial_control_engine.Worker.Services.{Services, reconciles_context}
use financial_control_engine.Worker.Writes.{
  on_incidents, terminate, retry, commit_verification_success, persist_reobservation_and_resolve,
  ask_gate,
}
use financial_control_engine.Worker.Observer.{observe_merchant_order, observe_provider_payment}
use financial_control_engine.Worker.Actuator.{execute_claimed_intent}

-- What a call is about: the record that was leased, the discrepancy, and the worker's id.
pub record Task : Type 0 where
  pub incident : IncidentRecord
  pub discrepancy : StoredResult
  pub worker : String

abbrev pub task_key : Task → Key
task_key t = key_of t.incident

-- A query, which changes nothing.
abbrev pub query : {A : Type 0} → Services → (World → A) → Run A
query s f = transact s.outage (λ w. ok (f w, w))

-- What was learned since the context was assembled.
pub record Learned : Type 0 where
  pub evidence : List Evidence
  pub observations : List Observation

abbrev pub known : InvestigationContext → Learned → List Observation
known c l = c.observations ++ l.observations

abbrev pub policy_context : InvestigationContext → Option PolicyContext
policy_context c = some (record { expectation = c.expectation; observations = c.observations })

-- `self.policy.evaluate(…)` on what is known
unfoldable pub decide : Services → Task → InvestigationContext → Learned → RecoveryIntent
unfolding evaluate
decide s t c l = evaluate s.iso t.incident.active_subject (known c l) (policy_context c)

-- `30 * (2 ** r_count)`
unfoldable pub retry_delay : ℕ → ℕ
retry_delay retry_count = 30 * 2 ^ retry_count

-- A retry, or the escalation after five of them.
unfoldable pub retry_or_escalate : Services → Task → IncidentState → Run Bool
unfolding retry_delay
retry_or_escalate s t state =
    if leb 5 t.incident.retry_count
    then terminate s (task_key t) state
    else retry s (task_key t) t.worker (retry_delay t.incident.retry_count)

-- The commit of what was verified, and the end as RESOLVED.
unfoldable pub commit_resolved : Services → Task → Learned → Run Bool
unfolding commit_verification_success
commit_resolved s t l = do
  commit_verification_success s (task_key t) l.evidence l.observations
  terminate s (task_key t) resolved

-- The observation after the mutation.
abbrev pub observe_target : Services → RecoveryAction → RecoveryIntent → Run (Option Observation)
observe_target s repair_merchant_state i = observe_merchant_order s i.target_id
observe_target s refund_payment i = observe_provider_payment s i.target_id
observe_target s escalate i = pure none

abbrev pub with_observed : Learned → Option Observation → Learned
with_observed l none = l
with_observed l (some o) = record l { observations = l.observations ++ o ∷ [] }

-- VERIFY OUTCOME: the incident is resolved only if the final state reconciles.
unfoldable pub verify_outcome : Services → Task → InvestigationContext → Learned → Run Bool
unfolding reconciles_context persist_reobservation_and_resolve
verify_outcome s t c l = do
  matches ← reconciles_context s c (known c l)
  if matches
      then persist_reobservation_and_resolve s (task_key t) l.evidence l.observations
      else terminate s (task_key t) escalated_convergence_failed

-- OBSERVE AGAIN, after the mutation was sent.
unfoldable pub observe_outcome :
    Services → Task → InvestigationContext → Learned → RecoveryIntent → Run Bool
unfolding observe_merchant_order observe_provider_payment verify_outcome
observe_outcome s t c l i = do
  on_incidents s (λ _. transition_to_reobserving (task_key t))
  o ← observe_target s i.action i
  verify_outcome s t c (with_observed l o)

abbrev pub has_failed : ActuationState → Bool
has_failed rejected = true
has_failed escalated = true
has_failed _ = false

-- ACT, once the gate has allowed it.
unfoldable pub act :
    Services → Task → InvestigationContext → Learned → RecoveryIntent → ActuationRecord → Run Bool
unfolding execute_claimed_intent observe_outcome
act s t c l i r = do
  on_incidents s (λ _. transition_to_actuating (task_key t))
  state ← execute_claimed_intent s i r
  if has_failed state
      then terminate s (task_key t) escalated_mutation_failed
      else observe_outcome s t c l i

abbrev blocked_state : GovernanceGateDecision → IncidentState
blocked_state blocked_by_kill_switch = escalated_paused_by_kill_switch
blocked_state blocked_by_budget = escalated_budget_exhausted
blocked_state claim_failed = escalated_unknown
blocked_state allowed = escalated_unknown

abbrev pub act_if_claimed :
    Services
    → Task
    → InvestigationContext
    → Learned
    → RecoveryIntent
    → Option ActuationRecord
    → Run Bool
act_if_claimed s t c l i none = raise unexpected
act_if_claimed s t c l i (some r) = act s t c l i r

abbrev pub after_gate :
    Services
    → Task
    → InvestigationContext
    → Learned
    → RecoveryIntent
    → GovernanceGateDecision
    → Option ActuationRecord
    → Run Bool
after_gate s t c l i allowed r = act_if_claimed s t c l i r
after_gate s t c l i blocked_by_kill_switch r =
    terminate s (task_key t) (blocked_state blocked_by_kill_switch)
after_gate s t c l i blocked_by_budget r =
    terminate s (task_key t) (blocked_state blocked_by_budget)
after_gate s t c l i claim_failed r = terminate s (task_key t) (blocked_state claim_failed)

-- `intent.amount or 0`
abbrev amount_or_zero : Option ℤ → ℤ
amount_or_zero none = pos 0
amount_or_zero (some a) = a

-- The request to the gate, at the version that was read with the lease.
unfoldable pub request : Services → Task → RecoveryIntent → ℕ → Request
request s t i n = record {
  intent = i;
  execution_identity = t.incident.active_subject;
  discrepancy_reason = t.incident.discrepancy_reason;
  incident_version = t.incident.version;
  budget_id = join "budget_" (lower (action_value i.action));
  budget_amount = amount_or_zero i.amount;
  record_id = s.fresh n;
  now = s.clock n;
}

-- The governance gate, and what follows its decision.
unfoldable pub authorize :
    Services → Task → InvestigationContext → Learned → RecoveryIntent → Run Bool
unfolding request ask_gate act
authorize s t c l i = do
  d ← ask_gate s (request s t i)
  after_gate s t c l i d.status d.actuation_record

abbrev pub is_escalation : RecoveryAction → Bool
is_escalation escalate = true
is_escalation _ = false

-- The commit of what was verified, and then the escalation or the gate.
unfoldable pub enact : Services → Task → InvestigationContext → Learned → RecoveryIntent → Run Bool
unfolding commit_verification_success authorize
enact s t c l i = do
  commit_verification_success s (task_key t) l.evidence l.observations
  if is_escalation i.action
      then terminate s (task_key t) escalated_policy_blocked
      else authorize s t c l i
