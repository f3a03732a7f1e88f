-- ===== src/Worker/Stuck.antt =====
-- What `_process_investigation` (src/engine/worker.py) does with an incident that it can neither
-- verify nor retry: one that was leased again after a crash, and one that was retried.
use financial_control_engine.Base.{
  ℕ, String, ◌≡◌, refl, ap, ◌∙◌, Bool, true, false, List, [], ◌∷◌, find, Option, none, some, Result,
  ok, err, inl, inr, ◌⊎◌, Bool-cases, some_injective, ok_injective, eq_refl, leb,
}
use financial_control_engine.Lifecycle.{
  IncidentState, TransitionError, invalid_transition, reobserving, resolved, escalated_unknown,
  verifying, investigating, state_eq, assert_valid_transition,
}
use financial_control_engine.Incidents.Records.{IncidentRecord, Key, has_key}
use financial_control_engine.Incidents.Repository.{
  Table, is_owner, has_lease, advance, update_hypothesis, schedule_retry, terminate_incident,
  released, get_active_incident,
}
use financial_control_engine.Investigation.Context.{
  InvestigationContext, AgentInput, format_context_for_investigation,
}
use financial_control_engine.Investigation.Hypotheses.{
  CausalHypothesis, ValidationRejectionReason, model_dump,
}
use financial_control_engine.Investigation.Validator.{validate}
use financial_control_engine.Substrate.Results.{StoredResult}
use financial_control_engine.Worker.Runs.{World, Raised, transient, unexpected, Run, ask, ◌>>=◌}
use financial_control_engine.Worker.Services.{Services, reconciles}
use financial_control_engine.Worker.Writes.{moved, on_incidents, terminate}
use financial_control_engine.Worker.Process.{
  Task, task_key, retry_or_escalate, can_reuse, keep_hypothesis, hypothesize, investigate, recover,
  is_stale, process_investigation,
}
use financial_control_engine.Worker.Walk.{Tracked, advance-Tracked}
use financial_control_engine.Core.Models.{Expectation, Observation}
use financial_control_engine.Worker.Closing.{moved_rows}
use financial_control_engine.Worker.Logic.{
  Meets, Keeps, meets_weaken, meets_given, meets_pure, meets_ask, meets_transact, meets_if,
  meets_bind, meets_attempt, meets_world,
}

pub find_leased :
    (k : Key) (worker : String) (rows : Table) {r : IncidentRecord}
    → find (has_key k) rows ≡ some r
    → is_owner r.lease_owner worker ≡ true
    → find (has_lease k worker) rows ≡ some r
find_leased k worker [] h o = cc
find_leased k worker (x ∷ xs) {r} h o = elim (Bool-cases (has_key k x)) [
  | inl e ↦ let same : r ≡ x = some_injective (rw e at h) in rw (e, ← same, o) refl
  | inr e ↦ rw e (find_leased k worker xs (rw e at h) o)
]

module _ (k : Key) (worker : String) (rows : Table) {r : IncidentRecord}
    (found : find (has_key k) rows ≡ some r) (owned : is_owner r.lease_owner worker ≡ true)
    (state : r.state ≡ reobserving) where
  hypothesis_refused :
      (text : String)
      → update_hypothesis k worker text rows ≡ err (invalid_transition reobserving verifying)
  unfolding update_hypothesis advance assert_valid_transition state_eq
  hypothesis_refused text = rw (find_leased k worker rows found owned, state) refl

  retry_refused :
      (delay now : ℕ)
      → schedule_retry k worker delay now rows ≡ err (invalid_transition reobserving investigating)
  unfolding schedule_retry advance assert_valid_transition state_eq
  retry_refused delay now = rw (find_leased k worker rows found owned, state) refl

terminate_reaches :
    (k : Key) (target : IncidentState) → Tracked k (λ x. x ≡ target) (terminate_incident k target)
unfolding terminate_incident
terminate_reaches k target =
    advance-Tracked k (has_key k) target released (λ x. x ≡ target) refl (λ x. refl) (λ x. refl)

-- An incident whose mutation was sent, and that was leased again.
module _ (s : Services) (t : Task) (start : World) where
  -- Nothing has been done for it.
  abbrev Waiting : World → Type 0
  Waiting w =
      (w.mutations ≡ start.mutations)
      × (w.observations ≡ start.observations)
      × (find (has_key (task_key t)) w.database.incidents ≡ some t.incident)

  abbrev pub IsStuck : IncidentState → Type 0
  IsStuck x = (x ≡ reobserving) ⊎ ((x ≡ escalated_unknown) ⊎ (x ≡ resolved))

  -- Nothing was sent or observed for it.
  abbrev pub Stuck : World → Type 0
  Stuck w =
      (w.mutations ≡ start.mutations)
      × (w.observations ≡ start.observations)
      × ((x : IncidentRecord) × (find (has_key (task_key t)) w.database.incidents ≡ some x)
          × IsStuck x.state)

  module _ (owned : t.incident.lease_owner ≡ some t.worker)
      (state : t.incident.state ≡ reobserving) where
    Waiting-Stuck : (w : World) → Waiting w → Stuck w
    Waiting-Stuck w (m, o, f) = (m, o, (t.incident, f, inl state))

    owner : is_owner t.incident.lease_owner t.worker ≡ true
    owner = rw (owned, eq_refl t.worker) refl

    never_moved :
        (f : ℕ → Table → Result TransitionError (Bool × Table)) {Q : Bool → World → Type 0}
        → ((n : ℕ) (rows : Table)
            → find (has_key (task_key t)) rows ≡ some t.incident
            → (e : TransitionError) × (f n rows ≡ err e))
        → Meets Waiting (on_incidents s f) Q Waiting
    unfolding on_incidents
    never_moved f raises =
        meets_transact s.outage _
          (λ w after a p h.
            let (e, x) = raises w.tick w.database.incidents p.2 in absurd (cc (rw x at h)))
          (λ w p. p)

    moved_same :
        (w : World) (x : Result TransitionError (Bool × Table)) {a : Bool} {after : World}
        → moved w x ≡ ok (a, after)
        → (after.mutations ≡ w.mutations) × (after.observations ≡ w.observations)
    moved_same w (err e) h = cc
    moved_same w (ok (done, rows)) h =
        rw (ap (λ (z : Bool × World). z.1) (ok_injective h)) (refl, refl)

    closes :
        (target : IncidentState)
        → IsStuck target
        → Meets Waiting (terminate s (task_key t) target) (λ _. Stuck) Waiting
    unfolding on_incidents
    closes target stuck =
        meets_transact s.outage _
          (λ w after a p h.
            let g = terminate_incident (task_key t) target in
            let (m, o) = moved_same w (g w.database.incidents) h in
            let (x, found, c) =
              terminate_reaches (task_key t) target w.database.incidents after.database.incidents a
                t.incident (moved_rows w (g w.database.incidents) h) p.2 in
            (
              m ∙ p.0,
              o ∙ p.1,
              (x, found, elim c [ inl same ↦ inl (same ∙ state) | inr e ↦ rw e stuck ]),
            ))
          (λ w p. p)

    keep_refused :
        (x : Result ValidationRejectionReason CausalHypothesis)
        → Meets Waiting (keep_hypothesis s t x) (λ y w. Waiting w × (y ≡ none)) Waiting
    keep_refused (err e) = meets_pure none (λ w p. (p, refl))
    keep_refused (ok h) =
        meets_bind {R = λ _ w. ⊥}
          (never_moved _ (λ n rows found.
            (_, hypothesis_refused (task_key t) t.worker rows found owner state _)))
          (λ _. record { run = λ w p. absurd p })

    fresh_hypothesis : can_reuse t ≡ false
    unfolding state_eq
    fresh_hypothesis = rw state refl

    hypothesize_refused :
        (input : AgentInput)
        → Meets Waiting (hypothesize s t input) (λ y w. Waiting w × (y ≡ none)) Waiting
    unfolding hypothesize
    hypothesize_refused input =
        meets_if (can_reuse t) (λ e. absurd (cc (e, fresh_hypothesis)))
          (λ _.
            meets_bind (meets_ask _ (λ w a p h. p) (λ w p. p))
              (λ h. keep_refused (validate (model_dump h) input)))

    investigate-Stuck : Meets Waiting (investigate s t) (λ _. Stuck) Waiting
    unfolding investigate
    investigate-Stuck =
        meets_bind
          (meets_transact s.outage _
            (λ w after a p e.
              rw (ap (λ (z : InvestigationContext × World). z.1) (ok_injective e)) p)
            (λ w p. p))
          (λ c.
            meets_bind (hypothesize_refused (format_context_for_investigation s.str s.iso c))
              (λ x. meets_given (λ e. rw e (closes escalated_unknown (inr (inl refl))))))

    Stuck-after :
        {m : Run Bool} → Meets Waiting m (λ _. Stuck) Waiting → Meets Waiting m (λ _. Stuck) Stuck
    Stuck-after h = meets_weaken (λ w p. p) (λ a w q. q) Waiting-Stuck h

    recover-Stuck : (e : Raised) → Meets Waiting (recover s t e) (λ _. Stuck) Stuck
    unfolding recover retry_or_escalate
    recover-Stuck unexpected = Stuck-after (closes escalated_unknown (inr (inl refl)))
    recover-Stuck transient =
        meets_if (leb 5 t.incident.retry_count)
          (λ _. Stuck-after (closes escalated_unknown (inr (inl refl))))
          (λ _. Stuck-after (
            never_moved _ (λ n rows found.
              (_, retry_refused (task_key t) t.worker rows found owner state _ _))))

    stale_waits : (x : Option (Expectation × List Observation)) → Keeps Waiting (is_stale s x)
    unfolding reconciles
    stale_waits none = meets_pure false (λ w p. p)
    stale_waits (some (e, [])) = meets_pure false (λ w p. p)
    stale_waits (some (e, o ∷ os)) = meets_ask _ (λ w a p h. p) (λ w p. p)

    process-Stuck : Meets Waiting (process_investigation s t) (λ _. Stuck) Stuck
    unfolding process_investigation
    process-Stuck =
        meets_bind
          (meets_transact s.outage _
            (λ w after a p e.
              rw
                (ap (λ (z : Option (Expectation × List Observation) × World). z.1) (ok_injective e))
                p)
            Waiting-Stuck)
          (λ x.
            meets_bind (meets_weaken (λ w p. p) (λ a w p. p) Waiting-Stuck (stale_waits x)) (λ b.
              meets_if b (λ _. Stuck-after (closes resolved (inr (inr refl))))
                (λ _. meets_attempt investigate-Stuck recover-Stuck)))

  -- An incident that is leased while REOBSERVING is not observed again: whatever is answered or raised,
  -- the run sends nothing and adds no observation, and leaves the incident REOBSERVING, closes it as
  -- ESCALATED_UNKNOWN, or as RESOLVED.
  pub reobserving_not_resumed :
      get_active_incident (task_key t) start.database.incidents ≡ some t.incident
      → t.incident.lease_owner ≡ some t.worker
      → t.incident.state ≡ reobserving
      → Stuck (process_investigation s t start).1
  unfolding get_active_incident
  reobserving_not_resumed found owned state =
      meets_world (process-Stuck owned state) start (refl, refl, found)

abbrev pub task_of : IncidentRecord → StoredResult → String → Task
task_of r d worker = record { incident = r; discrepancy = d; worker = worker }

-- What is done with a hypothesis of the investigator, when it is asked.
abbrev pub asked_anew : Services → Task → AgentInput → Run (Option CausalHypothesis)
asked_anew s t input =
    ask (λ n. s.investigate n input) >>= λ h. keep_hypothesis s t (validate (model_dump h) input)

-- In a run for the incident the investigator is asked, and the run is the same with any other hypothesis
-- stored.
abbrev pub Reinvestigated : Services → StoredResult → String → IncidentRecord → Type 0
Reinvestigated s d worker r =
    ((input : AgentInput)
      → hypothesize s (task_of r d worker) input ≡ asked_anew s (task_of r d worker) input)
    × ((text : Option String)
        → process_investigation s (task_of r d worker)
          ≡ process_investigation s (task_of (record r { hypothesis_payload = text }) d worker))
