-- ===== src/Worker/Stages.antt =====
-- The stages of `_process_investigation` of src/engine/worker.py, walked through once for all that is
-- shown of them.
use financial_control_engine.Base.{
  ◌≡◌, refl, true, false, List, [], ◌∷◌, ◌++◌, Option, none, some, Result, ok, err, All-append, leb,
  ok_injective, ap,
}
use financial_control_engine.Lifecycle.{
  IncidentState, state_eq, escalated_policy_blocked, escalated_missing_evidence, escalated_unknown,
}
use financial_control_engine.Core.Models.{Expectation, Observation}
use financial_control_engine.Investigation.Context.{
  InvestigationContext, AgentInput, expectation_of, assemble, format_context_for_investigation,
}
use financial_control_engine.Investigation.Hypotheses.{
  CausalHypothesis, ValidationRejectionReason, model_dump,
}
use financial_control_engine.Investigation.Validator.{validate}
use financial_control_engine.Worker.Runs.{World, Raised, transient, unexpected, next}
use financial_control_engine.Worker.Services.{Services}
use financial_control_engine.Worker.Writes.{terminate}
use financial_control_engine.Worker.Walk.{
  is_resolved, Grounds, Steps, terminate-Unresolving, retry-Unresolving, hypothesis-Unresolving,
}
use financial_control_engine.Worker.Sources.{
  Source, Sourced, find_observations-Sourced, observations_of-Sourced, verify-Sourced,
  reobserve-Sourced, IfLearned, collect-IfLearned,
}
use financial_control_engine.Worker.Process.{
  Task, task_key, query, Learned, known, nothing, decide, retry_or_escalate, commit_resolved, enact,
  is_escalation, reconsider, guarded, guard, conclude, Verified, a_failure, a_rejection, learned,
  collect, after_verification, verify_hypothesis, keep_hypothesis, hypothesize, can_reuse,
  investigate, recover, current, with_current, is_stale, process_investigation,
}
use financial_control_engine.Worker.Logic.{
  Meets, Keeps, meets_weaken, meets_given, meets_pure, meets_ask, meets_transact, meets_if,
  meets_bind, meets_attempt, meets_world,
}
use financial_control_engine.Worker.Grounded.{
  Assembled, AllKnown, reconciles-Matched, context-Grounds,
}

module _ {s : Services} {t : Task} {start : World} {P J : World → Type 0}
    (steps : Steps s t start P J) where
  failing : (w : World) → P w → J (next w)
  failing w p = steps.weaken (next w) (steps.ticks w p)

  commit_resolved_ends :
      (l : Learned) → Grounds s t start → Meets P (commit_resolved s t l) (λ _. J) J
  unfolding commit_resolved
  commit_resolved_ends l g =
      meets_bind
        (meets_weaken (λ w p. p) (λ b w p. p) steps.weaken
          (steps.commits l.evidence l.observations))
        (λ _. steps.resolves g)

  closes :
      (state : IncidentState)
      → is_resolved state ≡ false
      → Meets P (terminate s (task_key t) state) (λ _. J) J
  closes state h =
      meets_weaken steps.weaken (λ b w j. j) (λ w j. j)
        (steps.ends _ (λ n. terminate-Unresolving (task_key t) state h))

  enact_ends :
      (c : InvestigationContext) (l : Learned)
      → AllKnown s t start c l
      → Meets P (enact s t c l (decide s t c l)) (λ _. J) J
  unfolding enact state_eq
  enact_ends c l h =
      meets_bind
        (meets_weaken (λ w p. p) (λ b w p. p) steps.weaken
          (steps.commits l.evidence l.observations))
        (λ _.
          meets_if (is_escalation (decide s t c l).action)
            (λ _. closes escalated_policy_blocked refl)
            (λ e. steps.acts c l h.0.0 (h.0.1, h.0.2) h.1 e))

  reconsider_ends :
      (c : InvestigationContext) (l : Learned)
      → AllKnown s t start c l
      → Meets P (reconsider s t c l) (λ _. J) J
  unfolding reconsider
  reconsider_ends c l h = meets_bind (context-Grounds s t start steps.ticks failing c l h) (λ b.
      meets_given (λ g. meets_if b (λ y. commit_resolved_ends l (g y)) (λ _. enact_ends c l h)))

  guarded_ends :
      (c : InvestigationContext) (l : Learned) (changed : List Observation)
      → AllKnown s t start c l
      → Sourced s start.observations changed
      → Meets P (guarded s t c l changed) (λ _. J) J
  guarded_ends c l [] h k = enact_ends c l h
  guarded_ends c l (o ∷ os) h k =
      reconsider_ends c (record l { observations = l.observations ++ o ∷ os })
        (h.0, All-append (Source s start.observations) l.observations (o ∷ os) h.1 k)

  guard_ends :
      (c : InvestigationContext) (l : Learned)
      → AllKnown s t start c l
      → Meets P (guard s t c l) (λ _. J) J
  unfolding guard
  guard_ends c l h =
      meets_bind (reobserve-Sourced s start.observations steps.ticks (known c l))
        (λ os. meets_given (λ k. guarded_ends c l os h k))

  conclude_ends :
      (c : InvestigationContext) (l : Learned)
      → AllKnown s t start c l
      → Meets P (conclude s t c l) (λ _. J) J
  unfolding conclude
  conclude_ends c l h = meets_bind (context-Grounds s t start steps.ticks failing c l h) (λ b.
      meets_given (λ g.
        meets_if b (λ y. commit_resolved_ends l (g y))
          (λ _.
            meets_if (is_escalation (decide s t c l).action) (λ _. guard_ends c l h)
              (λ _. enact_ends c l h))))

  retry_ends :
      (state : IncidentState) → is_resolved state ≡ false → Keeps J (retry_or_escalate s t state)
  unfolding retry_or_escalate
  retry_ends state h =
      meets_if (leb 5 t.incident.retry_count)
        (λ _. steps.ends _ (λ n. terminate-Unresolving (task_key t) state h))
        (λ _. steps.ends _ (λ n. retry-Unresolving (task_key t) t.worker _ (s.clock n)))

  verification_ends :
      (c : InvestigationContext) (v : Verified)
      → Assembled s t start c
      → IfLearned s start.observations v
      → Meets P (after_verification s t c v) (λ _. J) J
  unfolding state_eq
  verification_ends c a_failure h k =
      meets_weaken steps.weaken (λ b w j. j) (λ w j. j) (retry_ends escalated_missing_evidence refl)
  verification_ends c a_rejection h k = closes escalated_missing_evidence refl
  verification_ends c (learned l) h k = conclude_ends c l (h, k)

  verify_ends :
      (c : InvestigationContext) (x : Option CausalHypothesis)
      → Assembled s t start c
      → Meets P (verify_hypothesis s t c x) (λ _. J) J
  unfolding state_eq
  verify_ends c none h = closes escalated_unknown refl
  verify_ends c (some x) h =
      meets_bind (verify-Sourced s start.observations steps.ticks steps.weaken x c) (λ rs.
        meets_given (λ k.
          verification_ends c (collect rs nothing) h
            (collect-IfLearned s start.observations rs nothing k tt)))

  keep_keeps :
      (x : Result ValidationRejectionReason CausalHypothesis)
      → Meets P (keep_hypothesis s t x) (λ _. P) J
  keep_keeps (err e) = meets_pure none (λ w p. p)
  keep_keeps (ok h) =
      meets_bind
        (meets_weaken (λ w p. p) (λ b w p. p) steps.weaken
          (steps.moves _ (λ n. hypothesis-Unresolving (task_key t) t.worker (s.dump h))))
        (λ _. meets_pure (some h) (λ w p. p))

  hypothesize_keeps : (input : AgentInput) → Meets P (hypothesize s t input) (λ _. P) J
  unfolding hypothesize
  hypothesize_keeps input =
      meets_if (can_reuse t) (λ _. meets_ask _ (λ w a p h. steps.ticks w p) failing)
        (λ _.
          meets_bind (meets_ask _ (λ w a p h. steps.ticks w p) failing)
            (λ h. keep_keeps (validate (model_dump h) input)))

  -- The tables that the context is assembled from are those of the start.
  abbrev AtStart : World → Type 0
  AtStart w = (w.expectations ≡ start.expectations) × (w.observations ≡ start.observations) × P w

  queried :
      {A : Type 0} (f : World → A) (F : A → Type 0)
      → ((w : World)
          → w.expectations ≡ start.expectations
          → w.observations ≡ start.observations
          → F (f w))
      → Meets AtStart (query s f) (λ a w. AtStart w × F a) J
  queried {A = A} f F h =
      meets_transact s.outage (λ w. ok (f w, w))
        (λ w after a p e.
          let x = ok_injective e in
          rw (ap (λ (z : A × World). z.0) x, ap (λ (z : A × World). z.1) x)
            ((p.0, p.1, steps.ticks w p.2), h w p.0 p.1))
        (λ w p. failing w p.2)

  investigate_ends : Meets AtStart (investigate s t) (λ _. J) J
  unfolding investigate assemble
  investigate_ends =
      meets_bind
        (queried
          (λ w. assemble (s.fresh w.tick) t.discrepancy w.expectations w.observations w.evidence)
          (Assembled s t start)
          (λ w e o. rw (e, o) (refl, refl, observations_of-Sourced s start.observations _)))
        (λ c. meets_given (λ h.
          meets_weaken (λ w p. p.2) (λ b w j. j) (λ w j. j)
            (meets_bind (hypothesize_keeps (format_context_for_investigation s.str s.iso c))
              (λ x. verify_ends c x h))))

  recover_ends : (e : Raised) → Keeps J (recover s t e)
  unfolding recover state_eq
  recover_ends transient = retry_ends escalated_unknown refl
  recover_ends unexpected =
      steps.ends _ (λ n. terminate-Unresolving (task_key t) escalated_unknown refl)

  -- The observations of the expectation of the discrepancy are those of the tables.
  abbrev IfCurrent : Option (Expectation × List Observation) → Type 0
  IfCurrent none = Unit
  IfCurrent (some (e, os)) =
      (expectation_of t.discrepancy.result.expectation_id start.expectations ≡ some e)
      × Sourced s start.observations os

  stale-Grounds :
      (x : Option (Expectation × List Observation))
      → IfCurrent x
      → Meets AtStart (is_stale s x) (λ b w. AtStart w × (b ≡ true → Grounds s t start)) J
  stale-Grounds none h = meets_pure false (λ w p. (p, (λ e. cc)))
  stale-Grounds (some (e, [])) h = meets_pure false (λ w p. (p, (λ e. cc)))
  stale-Grounds (some (e, o ∷ os)) h =
      meets_weaken (λ w p. p)
        (λ b w q. (
          q.0,
          (λ y. record {
            expectation = e;
            expected = h.0;
            observations = o ∷ os;
            sourced = h.1;
            reconciled = q.1 y;
          }),
        ))
        (λ w j. j)
        (reconciles-Matched s e (o ∷ os) (λ w p. (p.0, p.1, steps.ticks w p.2))
          (λ w p. failing w p.2))

  paired-IfCurrent :
      (x : Option Expectation)
      → expectation_of t.discrepancy.result.expectation_id start.expectations ≡ x
      → IfCurrent (with_current x start.observations)
  paired-IfCurrent none h = tt
  paired-IfCurrent (some x) h =
      (h, find_observations-Sourced s start.observations x.correlation_keys)

  current-IfCurrent :
      (w : World)
      → w.expectations ≡ start.expectations
      → w.observations ≡ start.observations
      → IfCurrent (current t w)
  unfolding current
  current-IfCurrent w e o =
      rw (current, e, o)
        (paired-IfCurrent (expectation_of t.discrepancy.result.expectation_id start.expectations)
          refl)

  process_ends : Meets AtStart (process_investigation s t) (λ _. J) J
  unfolding process_investigation
  process_ends = meets_bind (queried (current t) IfCurrent current-IfCurrent) (λ x.
      meets_given (λ h. meets_bind (stale-Grounds x h) (λ b. meets_given (λ g.
        meets_weaken (λ w p. p) (λ b w j. j) (λ w j. j)
          (meets_if b
            (λ y. meets_weaken (λ w p. p.2) (λ b w j. j) (λ w j. j) (steps.resolves (g y)))
            (λ _. meets_attempt investigate_ends recover_ends))))))

  -- What holds at the start holds at the end as well, if each transaction does its part.
  pub process_lem : P start → J (process_investigation s t start).1
  process_lem p = meets_world process_ends start (refl, refl, p)

-- A property that is kept from wherever a run starts.
pub process-Keeps :
    {s : Services} {t : Task} {P : World → Type 0}
    → ((start : World) → Steps s t start P P)
    → Keeps P (process_investigation s t)
process-Keeps steps = record { run = λ w p. (process_ends (steps w)).run w (refl, refl, p) }
