-- ===== src/Worker/Steady.antt =====
-- The runs of src/engine/worker.py that leave the mutations, the actuation records and the control
-- plane alone.
use financial_control_engine.Base.{
  ℕ, ◌≡◌, refl, ap, Bool, true, List, [], ◌∷◌, Option, none, some, Result, ok, err, ok_injective,
}
use financial_control_engine.Lifecycle.{TransitionError}
use financial_control_engine.Core.Models.{
  Evidence, Observation, Expectation, RecoveryIntent, RecoveryAction, repair_merchant_state,
  refund_payment, escalate,
}
use financial_control_engine.Core.Actuation.{ActuationRecord}
use financial_control_engine.Governance.Models.{ControlPlaneState, ActionBudget}
use financial_control_engine.Incidents.Records.{Key}
use financial_control_engine.Incidents.Repository.{Table, commit_actionable, resolve_reobserved}
use financial_control_engine.Substrate.Rows.{EvidenceRow, ObservationRow}
use financial_control_engine.Substrate.Observations.{IntegrityError}
use financial_control_engine.Investigation.Context.{InvestigationContext}
use financial_control_engine.Worker.Runs.{World, Mutation, Raised, transact}
use financial_control_engine.Worker.Services.{
  Services, reconciles_context, reconciles_with, reconciles,
}
use financial_control_engine.Worker.Writes.{
  moved, on_incidents, persisted, persist, commit_verification_success,
  persist_reobservation_and_resolve, announce, save_all_evidence, save_all_observations,
}
use financial_control_engine.Worker.Observer.{observe_merchant_order, observe_provider_payment}
use financial_control_engine.Worker.Process.{
  Task, task_key, Learned, known, observe_target, with_observed, verify_outcome, observe_outcome,
}
use financial_control_engine.Worker.Logic.{
  Keeps, meets_pure, meets_ask, meets_transact, meets_if, meets_bind,
}

-- The control planes and the budgets.
abbrev pub Governed : Type 0
Governed = List ControlPlaneState × List ActionBudget

abbrev pub governed : World → Governed
governed w = (w.database.control_planes, w.database.budgets)

-- The parts of the world that the predicates here speak of.
abbrev pub Over : (List Mutation → List ActuationRecord → Governed → Type 0) → World → Type 0
Over T w = T w.mutations w.database.actuations (governed w)

-- Two worlds that agree on them.
abbrev pub Alike : World → World → Type 0
Alike w v =
    (v.mutations ≡ w.mutations)
    × (v.database.actuations ≡ w.database.actuations)
    × (governed v ≡ governed w)

moved-Alike :
    (w : World) (x : Result TransitionError (Bool × Table)) {a : Bool} {after : World}
    → moved w x ≡ ok (a, after)
    → Alike w after
moved-Alike w (err e) h = cc
moved-Alike w (ok (done, rows)) {a} {after} h =
    rw (ap (λ (z : Bool × World). z.1) (ok_injective h)) (refl, refl, refl)

persisted-Alike :
    (w : World) (evidence : List EvidenceRow) (o : Result IntegrityError (List ObservationRow))
    (x : Result TransitionError (Bool × Table)) {a : Bool} {after : World}
    → persisted w evidence o x ≡ ok (a, after)
    → Alike w after
persisted-Alike w evidence (err e) x h = cc
persisted-Alike w evidence (ok rows) (err e) h = cc
persisted-Alike w evidence (ok rows) (ok (done, t)) {a} {after} h =
    rw (ap (λ (z : Bool × World). z.1) (ok_injective h)) (refl, refl, refl)

module _ (T : List Mutation → List ActuationRecord → Governed → Type 0) where
  Over-Alike : (w v : World) → Alike w v → Over T w → Over T v
  Over-Alike w v (a, b, c) h = rw (a, b, c) h

  pub transact-Steady :
      {A : Type 0} (outage : ℕ → Bool) (step : World → Result Raised (A × World))
      → ((w after : World) (a : A) → step w ≡ ok (a, after) → Alike w after)
      → Keeps (Over T) (transact outage step)
  transact-Steady outage step h =
      meets_transact outage step (λ w after a p e. Over-Alike w after (h w after a e) p) (λ w p. p)

  pub incidents-Steady :
      (s : Services) (f : ℕ → Table → Result TransitionError (Bool × Table))
      → Keeps (Over T) (on_incidents s f)
  unfolding on_incidents
  incidents-Steady s f =
      transact-Steady s.outage _ (λ w after a e. moved-Alike w (f w.tick w.database.incidents) e)

  persist-Steady :
      (s : Services) (move : Table → Result TransitionError (Bool × Table))
      (evidence : List Evidence) (observations : List Observation)
      → Keeps (Over T) (persist s move evidence observations)
  unfolding persist
  persist-Steady s move evidence observations = transact-Steady s.outage _ (λ w after a e.
      persisted-Alike w (save_all_evidence evidence w.evidence)
        (save_all_observations observations w.observations) (move w.database.incidents) e)

  pub commit-Steady :
      (s : Services) (k : Key) (evidence : List Evidence) (observations : List Observation)
      → Keeps (Over T) (commit_verification_success s k evidence observations)
  unfolding commit_verification_success
  commit-Steady s k evidence observations =
      persist-Steady s (commit_actionable k) evidence observations

  announce-Steady : (s : Services) (os : List Observation) → Keeps (Over T) (announce s os)
  announce-Steady s [] = meets_pure true (λ w p. p)
  announce-Steady s (o ∷ os) =
      transact-Steady s.outage _
        (λ w after a e. rw (ap (λ (z : Bool × World). z.1) (ok_injective e)) (refl, refl, refl))

  resolve-Steady :
      (s : Services) (k : Key) (evidence : List Evidence) (observations : List Observation)
      → Keeps (Over T) (persist_reobservation_and_resolve s k evidence observations)
  unfolding persist_reobservation_and_resolve
  resolve-Steady s k evidence observations =
      meets_bind (persist-Steady s (resolve_reobserved k) evidence observations)
        (λ _. announce-Steady s observations)

  reconciles-Steady :
      (s : Services) (e : Option Expectation) (os : List Observation)
      → Keeps (Over T) (reconciles_with s e os)
  unfolding reconciles
  reconciles-Steady s none os = meets_ask _ (λ w a p h. p) (λ w p. p)
  reconciles-Steady s (some e) os = meets_ask _ (λ w a p h. p) (λ w p. p)

  target-Steady :
      (s : Services) (a : RecoveryAction) (i : RecoveryIntent)
      → Keeps (Over T) (observe_target s a i)
  unfolding observe_merchant_order observe_provider_payment
  target-Steady s repair_merchant_state i = meets_ask _ (λ w a p h. p) (λ w p. p)
  target-Steady s refund_payment i =
      meets_if s.has_provider (λ _. meets_ask _ (λ w a p h. p) (λ w p. p))
        (λ _. meets_pure none (λ w p. p))
  target-Steady s escalate i = meets_pure none (λ w p. p)

  verify-Steady :
      (s : Services) (t : Task) (c : InvestigationContext) (l : Learned)
      → Keeps (Over T) (verify_outcome s t c l)
  unfolding verify_outcome reconciles_context
  verify-Steady s t c l = meets_bind (reconciles-Steady s c.expectation (known c l)) (λ b.
      meets_if b (λ _. resolve-Steady s (task_key t) l.evidence l.observations)
        (λ _. incidents-Steady s _))

  pub outcome-Steady :
      (s : Services) (t : Task) (c : InvestigationContext) (l : Learned) (i : RecoveryIntent)
      → Keeps (Over T) (observe_outcome s t c l i)
  unfolding observe_outcome
  outcome-Steady s t c l i =
      meets_bind (incidents-Steady s _) (λ _.
        meets_bind (target-Steady s i.action i) (λ o. verify-Steady s t c (with_observed l o)))
