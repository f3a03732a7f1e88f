-- ===== src/Worker/Resolved.antt =====
-- The incident that a run of `_process_investigation` (src/engine/worker.py) works on: it is closed as
-- RESOLVED on a match only.
use financial_control_engine.Base.{
  ℕ, ◌≡◌, ◌≢◌, refl, ap, Option, some, none, inl, inr, Bool-cases, Result-cases, Result,
  ok_injective, arith,
}
use financial_control_engine.Lifecycle.{
  resolved, state_eq, escalated_mutation_failed, escalated_paused_by_kill_switch,
  escalated_budget_exhausted, escalated_unknown,
}
use financial_control_engine.Core.Models.{
  RecoveryIntent, RecoveryAction, repair_merchant_state, refund_payment, escalate,
}
use financial_control_engine.Core.Actuation.{ActuationRecord, timeout_unknown}
use financial_control_engine.Governance.Models.{
  GateDecision, GovernanceGateDecision, allowed, blocked_by_kill_switch, blocked_by_budget,
  claim_failed,
}
use financial_control_engine.Governance.Gate.{Request, request_key, evaluate_and_claim}
use financial_control_engine.Governance.Claims.{allowed_claims, blocked_unchanged}
use financial_control_engine.Governance.Budgets.{is_allowed, is_allowed_iff, allowed_of_is_allowed}
use financial_control_engine.Incidents.Records.{IncidentRecord}
use financial_control_engine.Incidents.Repository.{get_active_incident}
use financial_control_engine.Investigation.Context.{InvestigationContext}
use financial_control_engine.Worker.Runs.{World, Mutation, Raised, next}
use financial_control_engine.Worker.Services.{Services}
use financial_control_engine.Worker.Writes.{ask_gate}
use financial_control_engine.Worker.Process.{Task, task_key, Learned, process_investigation}
use financial_control_engine.Worker.Walk.{Grounds, Steps, actuating-Unresolving}
use financial_control_engine.Worker.Closing.{claimed_row, Open, Justified, Open-Justified}
use financial_control_engine.Worker.Process.{
  act, after_gate, authorize, decide, has_failed, request,
}
use financial_control_engine.Worker.Actuator.{
  send, execute, sent_and_recorded, has_actuator, execute_claimed_intent,
}
use financial_control_engine.Worker.Writes.{record_outcome}
use financial_control_engine.Worker.Sending.{saved_rows}
use financial_control_engine.Substrate.Actuations.{save_actuation}
use financial_control_engine.Worker.Stages.{process_lem}
use financial_control_engine.Worker.Grounded.{AllKnown}
use financial_control_engine.Worker.Logic.{
  Meets, Keeps, meets_weaken, meets_pure, meets_raise, meets_transact, meets_if, meets_bind,
  meets_attempt,
}
use financial_control_engine.Worker.Outcomes.{
  moves_open, moves_justified, commits_open, resolves_justified, closes_justified, failing,
  observe_justified,
}

module _ (s : Services) (t : Task) (start : World) where
  abbrev P : World → Type 0
  P = Open s t start

  abbrev J : World → Type 0
  J = Justified s t start

  sent_open : {A : Type 0} (m : Mutation) (f : ℕ → Result Raised A) → Keeps P (send m f)
  unfolding send
  sent_open m f = record {
    run = λ w p. elim (Result-cases (f w.tick)) [ inl (a, e) ↦ rw e p | inr (r, e) ↦ rw e p ];
  }

  execute_open :
      (a : RecoveryAction) (i : RecoveryIntent) (r : ActuationRecord) → Keeps P (execute s a i r)
  unfolding execute
  execute_open refund_payment i r =
      meets_if s.has_provider (λ _. sent_open _ _) (λ _. meets_raise _ (λ w p. p))
  execute_open repair_merchant_state i r = sent_open _ _
  execute_open escalate i r = meets_pure _ (λ w p. p)

  record_open : (r : ℕ → ActuationRecord) → Keeps P (record_outcome s r)
  unfolding record_outcome
  record_open r =
      meets_transact s.outage _
        (λ w after a p e.
          let (rows, h, same) = saved_rows w (save_actuation (r w.tick) w.database.actuations) e in
          rw same p)
        (λ w p. p)

  claimed_open : (i : RecoveryIntent) (r : ActuationRecord) → Keeps P (execute_claimed_intent s i r)
  unfolding execute_claimed_intent sent_and_recorded
  claimed_open i r =
      meets_if (has_actuator i.action)
        (λ _.
          meets_bind
            (meets_attempt (execute_open i.action i r) (λ e. meets_pure timeout_unknown (λ w p. p)))
            (λ outcome. meets_bind (record_open _) (λ _. meets_pure outcome (λ w p. p))))
        (λ _. meets_pure _ (λ w p. p))

  act_justified :
      (c : InvestigationContext) (l : Learned) (i : RecoveryIntent) (r : ActuationRecord)
      → AllKnown s t start c l
      → Meets P (act s t c l i r) (λ _. J) J
  unfolding act state_eq
  act_justified c l i r h =
      meets_bind
        (meets_weaken (λ w p. p) (λ a w p. p) (Open-Justified s t start)
          ((moves_open s t start) _ (λ n. actuating-Unresolving (task_key t))))
        (λ _.
          meets_bind
            (meets_weaken (λ w p. p) (λ a w p. p) (Open-Justified s t start) (claimed_open i r))
            (λ state.
              meets_if (has_failed state)
                (λ _. (closes_justified s t start) escalated_mutation_failed refl)
                (λ _. (observe_justified s t start) c l i h)))

  after_gate_justified :
      (c : InvestigationContext) (l : Learned) (i : RecoveryIntent)
      (status : GovernanceGateDecision) (r : Option ActuationRecord)
      → AllKnown s t start c l
      → Meets P (after_gate s t c l i status r) (λ _. J) J
  unfolding state_eq
  after_gate_justified c l i allowed none h = meets_raise _ (λ w p. Open-Justified s t start w p)
  after_gate_justified c l i allowed (some r) h = act_justified c l i r h
  after_gate_justified c l i blocked_by_kill_switch r h =
      (closes_justified s t start) escalated_paused_by_kill_switch refl
  after_gate_justified c l i blocked_by_budget r h =
      (closes_justified s t start) escalated_budget_exhausted refl
  after_gate_justified c l i claim_failed r h = (closes_justified s t start) escalated_unknown refl

  gated_open :
      (q : Request) (w : World)
      → P w
      → P (next (record w { database = (evaluate_and_claim s.encoders q w.database).1 }))
  gated_open q w (r, h, n) =
      let (d, db) = evaluate_and_claim s.encoders q w.database in
      elim (Bool-cases (is_allowed d.status)) [
        | inl y ↦
            let g = allowed_claims s.encoders q w.database (allowed_of_is_allowed d.status y) in
            let (x, found, e) =
              claimed_row (task_key t) (request_key q) q.incident_version w.database.incidents r
                h in
            (x, rw (g.moved) found, elim e [ inl same ↦ rw same n | inr apart ↦ apart ])
        | inr k ↦
            rw (blocked_unchanged s.encoders q w.database (is_allowed_iff d.status k)) (r, h, n)
      ]

  gate_open : (q : ℕ → Request) → Meets P (ask_gate s q) (λ _. P) J
  unfolding ask_gate
  gate_open q =
      meets_transact s.outage _
        (λ w after d p e.
          rw (ap (λ (z : GateDecision × World). z.1) (ok_injective e)) (gated_open (q w.tick) w p))
        (failing s t start)

  authorize_justified :
      (c : InvestigationContext) (l : Learned) (i : RecoveryIntent)
      → AllKnown s t start c l
      → Meets P (authorize s t c l i) (λ _. J) J
  unfolding authorize
  authorize_justified c l i h =
      meets_bind (gate_open (request s t i))
        (λ d. after_gate_justified c l i d.status d.actuation_record h)

  steps : Steps s t start P J
  steps = record {
    weaken = Open-Justified s t start;
    ticks = λ w p. p;
    moves = (moves_open s t start);
    ends = (moves_justified s t start);
    commits = (commits_open s t start);
    resolves = (resolves_justified s t start);
    acts = λ c l e k h n. authorize_justified c l (decide s t c l) ((e, k.0, k.1), h);
  }

  -- If the incident of a run is there and not RESOLVED, then it is there after the run, however that
  -- ends, and it is RESOLVED only if the expectation of its discrepancy, as stored at the start, is
  -- matched by observations that were stored at the start or answered by external systems.
  pub process-Grounds :
      {r : IncidentRecord}
      → get_active_incident (task_key t) start.database.incidents ≡ some r
      → r.state ≢ resolved
      → let after = (process_investigation s t start).1 in
        (x : IncidentRecord) × (get_active_incident (task_key t) after.database.incidents ≡ some x)
        × (x.state ≡ resolved → Grounds s t start)
  unfolding get_active_incident state_eq
  process-Grounds {r} h n =
      let (x, found, g) = process_lem steps (r, h, ground (arith, n)) in
      (x, found, (λ e. g (rw e refl)))
