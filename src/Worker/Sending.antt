-- ===== src/Worker/Sending.antt =====
-- The gate and the mutation of src/engine/worker.py: what is to be looked at where a mutation is sent.
use financial_control_engine.Base.{
  ℕ, ◌≡◌, ◌≢◌, refl, ap, Bool, false, List, [], ◌∷◌, ◌++◌, Option, some, Result, ok, err, inl, inr,
  All-append, Bool-cases, Result-cases, ok_injective,
}
use financial_control_engine.Core.Models.{
  RecoveryIntent, RecoveryAction, repair_merchant_state, refund_payment, escalate,
}
use financial_control_engine.Core.Actuation.{ActuationRecord, timeout_unknown, rejected}
use financial_control_engine.Governance.Models.{
  GateDecision, GovernanceGateDecision, allowed, blocked_by_kill_switch, blocked_by_budget,
  claim_failed,
}
use financial_control_engine.Governance.Gate.{Database, pending_record, evaluate_and_claim}
use financial_control_engine.Governance.Claims.{allowed_claims, blocked_unchanged}
use financial_control_engine.Governance.Budgets.{is_allowed, is_allowed_iff, allowed_of_is_allowed}
use financial_control_engine.Substrate.Observations.{IntegrityError}
use financial_control_engine.Substrate.Actuations.{save_actuation}
use financial_control_engine.Investigation.Context.{
  InvestigationContext, expectation_of, observations_of,
}
use financial_control_engine.Worker.Runs.{World, Mutation, Raised, next}
use financial_control_engine.Worker.Services.{Services}
use financial_control_engine.Worker.Writes.{ask_gate, record_outcome, saved_actuation}
use financial_control_engine.Worker.Actuator.{
  send, mutation_of, execute, sent_and_recorded, has_actuator, execute_claimed_intent,
}
use financial_control_engine.Worker.Process.{
  Task, task_key, Learned, known, decide, request, has_failed, act, after_gate, authorize,
  is_escalation,
}
use financial_control_engine.Worker.Sources.{Source, Sourced}
use financial_control_engine.Worker.Walk.{Steps}
use financial_control_engine.Worker.Logic.{
  Meets, Keeps, meets_weaken, meets_pure, meets_raise, meets_transact, meets_if, meets_bind,
  meets_attempt,
}
use financial_control_engine.Worker.Steady.{
  Governed, governed, Over, incidents-Steady, outcome-Steady, commit-Steady,
}

-- A property of the mutations, the actuation records, the control planes and the budgets.
abbrev pub Property : Type 1
Property = List Mutation → List ActuationRecord → Governed → Type 0

-- What is to be looked at for an intent: `T` holds before the gate, `U n` once it allowed the request
-- of the call `n`, and `V` from the mutation on.
pub record Sends (s : Services) (t : Task) (i : RecoveryIntent) (T : Property) (U : ℕ → Property)
    (V : Property) : Type 0 where
  pub unsent : (m : List Mutation) (a : List ActuationRecord) (p : Governed) → T m a p → V m a p
  pub claims :
      (n : ℕ) (m : List Mutation) (db : Database)
      → T m db.actuations (db.control_planes, db.budgets)
      → (evaluate_and_claim s.encoders (request s t i n) db).0.status ≡ allowed
      → U n m
          (db.actuations ++ pending_record s.encoders (request s t i n) ∷ [])
          (db.control_planes, (evaluate_and_claim s.encoders (request s t i n) db).1.budgets)
  pub claimed :
      (n : ℕ) (m : List Mutation) (a : List ActuationRecord) (p : Governed) → U n m a p → V m a p
  pub sends :
      (n : ℕ) (m : List Mutation) (a : List ActuationRecord) (p : Governed)
      → U n m a p
      → V (m ++ mutation_of i (pending_record s.encoders (request s t i n)) ∷ []) a p
  pub records :
      (x : ActuationRecord) (m : List Mutation) (a b : List ActuationRecord) (p : Governed)
      → V m a p
      → save_actuation x a ≡ ok b
      → V m b p

pub saved_rows :
    (w : World) (x : Result IntegrityError (List ActuationRecord)) {a : Bool} {after : World}
    → saved_actuation w x ≡ ok (a, after)
    → (rows : List ActuationRecord) × (x ≡ ok rows)
      × (after ≡ record w { database = record w.database { actuations = rows } })
saved_rows w (err e) h = cc
saved_rows w (ok rows) h = (rows, refl, ap (λ (z : Bool × World). z.1) (ok_injective h))

module _ {s : Services} {t : Task} {i : RecoveryIntent} {T V : Property} {U : ℕ → Property}
    (x : Sends s t i T U V) (n : ℕ) where
  abbrev claim_of : ActuationRecord
  claim_of = pending_record s.encoders (request s t i n)

  sent_ends :
      {A : Type 0} (f : ℕ → Result Raised A)
      → Meets (Over (U n)) (send (mutation_of i claim_of) f) (λ _. Over V) (Over V)
  unfolding send
  sent_ends f = record {
    run = λ w p.
        let q = x.sends n w.mutations w.database.actuations (governed w) p in
        elim (Result-cases (f w.tick)) [ inl (a, e) ↦ rw e q | inr (r, e) ↦ rw e q ];
  }

  unsent_ends : (w : World) → Over (U n) w → Over V w
  unsent_ends w p = x.claimed n w.mutations w.database.actuations (governed w) p

  execute_ends :
      (a : RecoveryAction) → Meets (Over (U n)) (execute s a i claim_of) (λ _. Over V) (Over V)
  unfolding execute
  execute_ends refund_payment =
      meets_if s.has_provider (λ _. sent_ends _) (λ _. meets_raise _ unsent_ends)
  execute_ends repair_merchant_state = sent_ends _
  execute_ends escalate = meets_pure rejected unsent_ends

  record_ends : (r : ℕ → ActuationRecord) → Keeps (Over V) (record_outcome s r)
  unfolding record_outcome
  record_ends r =
      meets_transact s.outage _
        (λ w after a p e.
          let (rows, h, same) = saved_rows w (save_actuation (r w.tick) w.database.actuations) e in
          rw same (x.records (r w.tick) w.mutations w.database.actuations rows (governed w) p h))
        (λ w p. p)

  recorded_ends : Meets (Over (U n)) (sent_and_recorded s i claim_of) (λ _. Over V) (Over V)
  unfolding sent_and_recorded
  recorded_ends =
      meets_bind
        (meets_attempt (execute_ends i.action) (λ e. meets_pure timeout_unknown (λ w p. p)))
        (λ outcome. meets_bind (record_ends _) (λ _. meets_pure outcome (λ w p. p)))

  claimed_ends : Meets (Over (U n)) (execute_claimed_intent s i claim_of) (λ _. Over V) (Over V)
  unfolding execute_claimed_intent
  claimed_ends =
      meets_if (has_actuator i.action) (λ _. recorded_ends) (λ _. meets_pure rejected unsent_ends)

  act_ends :
      (c : InvestigationContext) (l : Learned)
      → Meets (Over (U n)) (act s t c l i claim_of) (λ _. Over V) (Over V)
  unfolding act
  act_ends c l =
      meets_bind (meets_weaken (λ w p. p) (λ a w p. p) unsent_ends (incidents-Steady (U n) s _))
        (λ _. meets_bind claimed_ends (λ state.
          meets_if (has_failed state) (λ _. incidents-Steady V s _)
            (λ _. outcome-Steady V s t c l i)))

module _ {s : Services} {t : Task} {i : RecoveryIntent} {T V : Property} {U : ℕ → Property}
    (x : Sends s t i T U V) where
  -- What the gate leaves.
  data Gated (d : GateDecision) (w : World) : Type 0 where
    refused : d.status ≢ allowed → Over V w → Gated d w
    granted :
        (n : ℕ)
        → d.status ≡ allowed
        → d.actuation_record ≡ some (pending_record s.encoders (request s t i n))
        → Over (U n) w
        → Gated d w

  gated :
      (w : World)
      → Over T w
      → let (d, db) = evaluate_and_claim s.encoders (request s t i w.tick) w.database in
        Gated d (next (record w { database = db }))
  gated w p =
      let q = request s t i w.tick in
      let (d, db) = evaluate_and_claim s.encoders q w.database in
      elim (Bool-cases (is_allowed d.status)) [
        | inl y ↦
            let h = allowed_of_is_allowed d.status y in
            let c = allowed_claims s.encoders q w.database h in
            granted w.tick h c.returned
              (rw (c.recorded, c.planes) (x.claims w.tick w.mutations w.database p h))
        | inr n ↦
            let h = is_allowed_iff d.status n in
            refused h (
              rw (blocked_unchanged s.encoders q w.database h)
                (x.unsent w.mutations w.database.actuations (governed w) p))
      ]

  gate_ends : Meets (Over T) (ask_gate s (request s t i)) Gated (Over V)
  unfolding ask_gate
  gate_ends =
      meets_transact s.outage _
        (λ w after d p e.
          let y = ok_injective e in
          rw (ap (λ (z : GateDecision × World). z.0) y, ap (λ (z : GateDecision × World). z.1) y)
            (gated w p))
        (λ w p. x.unsent w.mutations w.database.actuations (governed w) p)

  blocked_ends :
      (c : InvestigationContext) (l : Learned) (status : GovernanceGateDecision)
      (r : Option ActuationRecord)
      → status ≢ allowed
      → Keeps (Over V) (after_gate s t c l i status r)
  blocked_ends c l allowed r h = absurd (h refl)
  blocked_ends c l blocked_by_kill_switch r h = incidents-Steady V s _
  blocked_ends c l blocked_by_budget r h = incidents-Steady V s _
  blocked_ends c l claim_failed r h = incidents-Steady V s _

  after_gate_ends :
      (c : InvestigationContext) (l : Learned) (d : GateDecision)
      → Meets (Gated d) (after_gate s t c l i d.status d.actuation_record) (λ _. Over V) (Over V)
  after_gate_ends c l d = record {
    run = λ w g. elim g [
      | refused h v ↦ (blocked_ends c l d.status d.actuation_record h).run w v
      | granted n h r u ↦ rw (h, r) ((act_ends x n c l).run w u)
    ];
  }

  authorize_ends :
      (c : InvestigationContext) (l : Learned)
      → Meets (Over T) (authorize s t c l i) (λ _. Over V) (Over V)
  unfolding authorize
  authorize_ends c l = meets_bind gate_ends (λ d. after_gate_ends c l d)

-- What is shown of the mutations needs the gate and the mutation to be looked at alone.
pub Sends-Steps :
    {s : Services} {t : Task} {start : World} {T V : Property}
    → ((m : List Mutation) (a : List ActuationRecord) (p : Governed) → T m a p → V m a p)
    → ((c : InvestigationContext) (l : Learned)
        → c.expectation ≡ expectation_of t.discrepancy.result.expectation_id start.expectations
        → c.observations ≡ observations_of t.discrepancy.result.observation_ids start.observations
        → Sourced s start.observations (known c l)
        → is_escalation (decide s t c l).action ≡ false
        → (U : ℕ → Property) × Sends s t (decide s t c l) T U V)
    → Steps s t start (Over T) (Over V)
Sends-Steps {s} {t} {start} {T} {V} weaken look = record {
  weaken = λ w p. weaken w.mutations w.database.actuations (governed w) p;
  ticks = λ w p. p;
  moves = λ f h. incidents-Steady T s f;
  ends = λ f h. incidents-Steady V s f;
  commits = λ evidence observations. commit-Steady T s (task_key t) evidence observations;
  resolves = λ g.
      meets_weaken (λ w p. weaken w.mutations w.database.actuations (governed w) p) (λ a w p. p)
        (λ w p. p) (incidents-Steady V s _);
  acts = λ c l e k h n.
      let known_all =
        All-append (Source s start.observations) c.observations l.observations k.1 h in
      let (U, x) = look c l e k.0 known_all n in authorize_ends x c l;
}
