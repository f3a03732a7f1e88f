-- ===== src/Worker/Walk.antt =====
-- The way through `_process_investigation` of src/engine/worker.py, for what is to be shown of its
-- transactions: it is enough to look at each of them.
use financial_control_engine.Base.{
  ℕ, String, ◌≡◌, refl, Bool, false, List, some, Result, ok, inl, inr, ◌⊎◌, find, Result-cases, ◌+◌,
  ok_injective, Option-cases, ap,
}
use financial_control_engine.Lifecycle.{
  IncidentState, TransitionError, verifying, actuating, reobserving, investigating, resolved,
  state_eq, assert_valid_transition,
}
use financial_control_engine.Core.Models.{Expectation, Evidence, Observation}
use financial_control_engine.Incidents.Records.{IncidentRecord, Key, has_key}
use financial_control_engine.Incidents.Repository.{
  Table, advance, terminate_incident, schedule_retry, update_hypothesis, transition_to_actuating,
  transition_to_reobserving, has_lease, released, retried, seconds,
}
use financial_control_engine.Incidents.Moves.{find-write_first}
use financial_control_engine.Matching.Matches.{Matched}
use financial_control_engine.Investigation.Context.{
  InvestigationContext, expectation_of, observations_of,
}
use financial_control_engine.Worker.Runs.{World, next}
use financial_control_engine.Worker.Services.{Services}
use financial_control_engine.Worker.Writes.{on_incidents, terminate, commit_verification_success}
use financial_control_engine.Worker.Sources.{Sourced}
use financial_control_engine.Worker.Process.{
  Task, task_key, Learned, decide, authorize, is_escalation,
}
use financial_control_engine.Worker.Logic.{Meets, Keeps}

abbrev pub is_resolved : IncidentState → Bool
is_resolved s = state_eq s resolved

-- A call that leaves the incident of a key in its state, or moves it to one with a property.
abbrev pub Tracked :
    Key → (IncidentState → Type 0) → (Table → Result TransitionError (Bool × Table)) → Type 0
Tracked k Q g =
    (rows after : Table) (done : Bool) (r : IncidentRecord)
    → g rows ≡ ok (done, after)
    → find (has_key k) rows ≡ some r
    → (x : IncidentRecord) × (find (has_key k) after ≡ some x) × ((x.state ≡ r.state) ⊎ Q x.state)

-- A call that does not move the incident of a key to RESOLVED.
abbrev pub Unresolving : Key → (Table → Result TransitionError (Bool × Table)) → Type 0
Unresolving k g = Tracked k (λ s. is_resolved s ≡ false) g

-- What a match of the expectation of the discrepancy rests on.
pub record Grounds (s : Services) (t : Task) (w : World) : Type 0 where
  pub expectation : Expectation
  pub expected :
      expectation_of t.discrepancy.result.expectation_id w.expectations ≡ some expectation
  pub observations : List Observation
  pub sourced : Sourced s w.observations observations
  pub reconciled : Matched expectation observations

-- What is to be looked at: `P` holds until the incident is closed or a mutation may be sent, and `J`
-- from there on and wherever an exception is raised.
pub record Steps (s : Services) (t : Task) (start : World) (P J : World → Type 0) : Type 0 where
  pub weaken : (w : World) → P w → J w
  pub ticks : (w : World) → P w → P (next w)
  pub moves :
      (f : ℕ → Table → Result TransitionError (Bool × Table))
      → ((n : ℕ) → Unresolving (task_key t) (f n))
      → Keeps P (on_incidents s f)
  pub ends :
      (f : ℕ → Table → Result TransitionError (Bool × Table))
      → ((n : ℕ) → Unresolving (task_key t) (f n))
      → Keeps J (on_incidents s f)
  pub commits :
      (evidence : List Evidence) (observations : List Observation)
      → Keeps P (commit_verification_success s (task_key t) evidence observations)
  pub resolves : Grounds s t start → Meets P (terminate s (task_key t) resolved) (λ _. J) J
  pub acts :
      (c : InvestigationContext) (l : Learned)
      → c.expectation ≡ expectation_of t.discrepancy.result.expectation_id start.expectations
      → (c.observations ≡ observations_of t.discrepancy.result.observation_ids start.observations)
        × Sourced s start.observations c.observations
      → Sourced s start.observations l.observations
      → is_escalation (decide s t c l).action ≡ false
      → Meets P (authorize s t c l (decide s t c l)) (λ _. J) J

pub advance-Tracked :
    (k : Key) (p : IncidentRecord → Bool) (target : IncidentState)
    (f : IncidentRecord → IncidentRecord) (Q : IncidentState → Type 0)
    → Q target
    → ((x : IncidentRecord) → has_key k (f (record x { state = target })) ≡ has_key k x)
    → ((x : IncidentRecord) → (f (record x { state = target })).state ≡ target)
    → Tracked k Q (advance p target f)
unfolding advance
advance-Tracked k p target f Q closed keep sets rows after done r e h =
    elim (Option-cases (find p rows)) [
      | inl n ↦ rw (ap (λ (z : Bool × Table). z.1) (ok_injective (rw n at e))) (r, h, inl refl)
      | inr (y, n) ↦ elim (Result-cases (assert_valid_transition y.state target)) [
        | inr (_, a) ↦ absurd (cc (rw (n, a) at e))
        | inl (_, a) ↦
            let g = λ (x : IncidentRecord). f (record x { state = target }) in
            rw (ap (λ (z : Bool × Table). z.1) (ok_injective (rw (n, a) at e)))
              (elim (find-write_first p (has_key k) g rows keep h) [
                | inl same ↦ (r, same, inl refl)
                | inr (written, _) ↦ (g r, written, inr (rw (sets r) closed))
              ])
      ]
    ]

pub terminate-Unresolving :
    (k : Key) (state : IncidentState)
    → is_resolved state ≡ false
    → Unresolving k (terminate_incident k state)
unfolding terminate_incident
terminate-Unresolving k state h =
    advance-Tracked k (has_key k) state released (λ s. is_resolved s ≡ false) h (λ x. refl)
      (λ x. refl)

pub retry-Unresolving :
    (k : Key) (worker : String) (delay now : ℕ) → Unresolving k (schedule_retry k worker delay now)
unfolding schedule_retry state_eq
retry-Unresolving k worker delay now =
    advance-Tracked k (has_lease k worker) investigating (retried (now + seconds delay))
      (λ s. is_resolved s ≡ false) refl (λ x. refl) (λ x. refl)

pub hypothesis-Unresolving :
    (k : Key) (worker text : String) → Unresolving k (update_hypothesis k worker text)
unfolding update_hypothesis state_eq
hypothesis-Unresolving k worker text =
    advance-Tracked k (has_lease k worker) verifying _ (λ s. is_resolved s ≡ false) refl (λ x. refl)
      (λ x. refl)

pub actuating-Unresolving : (k : Key) → Unresolving k (transition_to_actuating k)
unfolding transition_to_actuating state_eq
actuating-Unresolving k =
    advance-Tracked k (has_key k) actuating (λ r. r) (λ s. is_resolved s ≡ false) refl (λ x. refl)
      (λ x. refl)

pub reobserving-Unresolving : (k : Key) → Unresolving k (transition_to_reobserving k)
unfolding transition_to_reobserving state_eq
reobserving-Unresolving k =
    advance-Tracked k (has_key k) reobserving (λ r. r) (λ s. is_resolved s ≡ false) refl (λ x. refl)
      (λ x. refl)
