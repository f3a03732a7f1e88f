-- ===== src/Worker/Outcomes.antt =====
-- The ends of a run of `_process_investigation` (src/engine/worker.py), and the commits before them:
-- what each leaves of the incident.
use financial_control_engine.Base.{
  ℕ, ◌≡◌, refl, ap, Bool, true, false, List, [], ◌∷◌, Option, some, none, All-append, Result,
  ok_injective,
}
use financial_control_engine.Lifecycle.{
  IncidentState, TransitionError, resolved, state_eq, escalated_convergence_failed,
}
use financial_control_engine.Core.Models.{
  Evidence, Observation, RecoveryIntent, RecoveryAction, repair_merchant_state, refund_payment,
  escalate,
}
use financial_control_engine.Incidents.Repository.{
  Table, commit_actionable, resolve_reobserved, terminate_incident,
}
use financial_control_engine.Investigation.Context.{InvestigationContext}
use financial_control_engine.Worker.Runs.{World, next}
use financial_control_engine.Worker.Services.{Services}
use financial_control_engine.Worker.Writes.{
  on_incidents, terminate, persist, commit_verification_success, persist_reobservation_and_resolve,
  announce,
}
use financial_control_engine.Worker.Process.{
  Task, task_key, Learned, with_observed, observe_target, verify_outcome, observe_outcome,
}
use financial_control_engine.Worker.Sources.{Source, IfSourced, order-Sourced, payment-Sourced}
use financial_control_engine.Worker.Walk.{
  is_resolved, Unresolving, Grounds, reobserving-Unresolving, terminate-Unresolving,
}
use financial_control_engine.Worker.Closing.{
  commit-Unresolving, resolve-Tracked, terminate-Tracked, moved_rows, persisted_rows, Open,
  Justified, Open-Justified, still-Open, still-Justified, with-Grounds,
}
use financial_control_engine.Worker.Grounded.{AllKnown, context-Grounds}
use financial_control_engine.Worker.Logic.{
  Meets, Keeps, meets_weaken, meets_given, meets_pure, meets_transact, meets_if, meets_bind,
}

module _ (s : Services) (t : Task) (start : World) where
  abbrev P : World → Type 0
  P = Open s t start

  abbrev J : World → Type 0
  J = Justified s t start

  pub moves_open :
      (f : ℕ → Table → Result TransitionError (Bool × Table))
      → ((n : ℕ) → Unresolving (task_key t) (f n))
      → Keeps P (on_incidents s f)
  unfolding on_incidents
  moves_open f u =
      meets_transact s.outage _
        (λ w after a p e.
          still-Open s t start (f w.tick) w after a (u w.tick)
            (moved_rows w (f w.tick w.database.incidents) e) p)
        (λ w p. p)

  pub moves_justified :
      (f : ℕ → Table → Result TransitionError (Bool × Table))
      → ((n : ℕ) → Unresolving (task_key t) (f n))
      → Keeps J (on_incidents s f)
  unfolding on_incidents
  moves_justified f u =
      meets_transact s.outage _
        (λ w after a p e.
          still-Justified s t start (f w.tick) w after a (u w.tick)
            (moved_rows w (f w.tick w.database.incidents) e) p)
        (λ w p. p)

  pub commits_open :
      (evidence : List Evidence) (observations : List Observation)
      → Keeps P (commit_verification_success s (task_key t) evidence observations)
  unfolding commit_verification_success persist
  commits_open evidence observations =
      meets_transact s.outage _
        (λ w after a p e.
          still-Open s t start (commit_actionable (task_key t)) w after a
            (commit-Unresolving (task_key t))
            (persisted_rows w _ _ (commit_actionable (task_key t) w.database.incidents) e) p)
        (λ w p. p)

  pub resolves_justified :
      Grounds s t start → Meets P (terminate s (task_key t) resolved) (λ _. J) J
  unfolding on_incidents
  resolves_justified g =
      meets_transact s.outage _
        (λ w after a p e.
          with-Grounds s t start (terminate_incident (task_key t) resolved) w after a g
            (terminate-Tracked (task_key t) resolved)
            (moved_rows w (terminate_incident (task_key t) resolved w.database.incidents) e) p)
        (λ w p. Open-Justified s t start w p)

  pub closes_justified :
      (state : IncidentState)
      → is_resolved state ≡ false
      → Meets P (terminate s (task_key t) state) (λ _. J) J
  closes_justified state h =
      meets_weaken (Open-Justified s t start) (λ a w j. j) (λ w j. j)
        (moves_justified _ (λ n. terminate-Unresolving (task_key t) state h))

  announces : (os : List Observation) → Keeps J (announce s os)
  announces [] = meets_pure true (λ w p. p)
  announces (o ∷ os) =
      meets_transact s.outage _
        (λ w after a p e. rw (ap (λ (z : Bool × World). z.1) (ok_injective e)) p) (λ w p. p)

  reobserved_justified :
      (l : Learned)
      → Grounds s t start
      → Meets P
          (persist_reobservation_and_resolve s (task_key t) l.evidence l.observations)
          (λ _. J)
          J
  unfolding persist_reobservation_and_resolve persist
  reobserved_justified l g =
      meets_bind
        (meets_transact s.outage _
          (λ w after a p e.
            with-Grounds s t start (resolve_reobserved (task_key t)) w after a g
              (resolve-Tracked (task_key t))
              (persisted_rows w _ _ (resolve_reobserved (task_key t) w.database.incidents) e) p)
          (λ w p. Open-Justified s t start w p))
        (λ _. announces l.observations)

  pub failing : (w : World) → P w → J (next w)
  failing w p = Open-Justified s t start w p

  outcome_justified :
      (c : InvestigationContext) (l : Learned)
      → AllKnown s t start c l
      → Meets P (verify_outcome s t c l) (λ _. J) J
  unfolding verify_outcome state_eq
  outcome_justified c l h = meets_bind (context-Grounds s t start (λ w p. p) failing c l h) (λ b.
      meets_given (λ g.
        meets_if b (λ y. reobserved_justified l (g y))
          (λ _. closes_justified escalated_convergence_failed refl)))

  observed_known :
      (c : InvestigationContext) (l : Learned) (o : Option Observation)
      → AllKnown s t start c l
      → IfSourced s start.observations o
      → AllKnown s t start c (with_observed l o)
  observed_known c l none h k = h
  observed_known c l (some o) h k =
      (h.0, All-append (Source s start.observations) l.observations (o ∷ []) h.1 (k, tt))

  target-Sourced :
      (a : RecoveryAction) (i : RecoveryIntent)
      → Meets P (observe_target s a i) (λ o w. P w × IfSourced s start.observations o) J
  target-Sourced repair_merchant_state i =
      order-Sourced s start.observations (λ w p. p) failing i.target_id
  target-Sourced refund_payment i =
      payment-Sourced s start.observations (λ w p. p) failing i.target_id
  target-Sourced escalate i = meets_pure none (λ w p. (p, tt))

  pub observe_justified :
      (c : InvestigationContext) (l : Learned) (i : RecoveryIntent)
      → AllKnown s t start c l
      → Meets P (observe_outcome s t c l i) (λ _. J) J
  unfolding observe_outcome
  observe_justified c l i h =
      meets_bind
        (meets_weaken (λ w p. p) (λ a w p. p) (Open-Justified s t start)
          (moves_open _ (λ n. reobserving-Unresolving (task_key t))))
        (λ _. meets_bind (target-Sourced i.action i) (λ o.
          meets_given (λ k. outcome_justified c (with_observed l o) (observed_known c l o h k))))
