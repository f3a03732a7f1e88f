-- ===== src/Incidents/Moves.antt =====
-- Sequences of calls of the methods of `PostgresActiveIncidentRepository`
-- (src/storage/postgres_substrate.py), and the states that they take an incident through.
use financial_control_engine.Base.{
  ℕ, ◌+◌, String, ◌==◌, ◌≡◌, ◌⊎◌, inl, inr, refl, sym, Bool, ◌||◌, List, [], ◌∷◌, ◌++◌, find, any,
  write_first, some, Result, ok, err, arith, Bool-cases, Option-cases, Result-cases, ◌∙◌,
  some_injective,
}
use financial_control_engine.Lifecycle.{
  IncidentState, investigating, verifying, actionable, actuating, reobserving, resolved,
  TransitionError, assert_valid_transition,
}
use financial_control_engine.Incidents.Records.{IncidentRecord, Key, has_key}
use financial_control_engine.Incidents.Leases.{
  leased_state-accepted, is_leasable, acquire_lease_found, acquire_lease_missing,
}
use financial_control_engine.Incidents.Repository.{
  leased_state, is_investigated, seconds, Table, try_claim_incident, leased, acquire_lease, advance,
  has_lease, released, update_hypothesis, schedule_retry, terminate_incident,
  transition_to_actuating, transition_to_reobserving, resolve_reobserved, commit_actionable,
  get_active_incident,
}

-- The calls of the methods that go through the state machine, with their arguments and the time.
pub data Call : Type 0 where
  claims : Key → String → ℕ → Call
  leases : Key → String → ℕ → ℕ → Call
  hypothesizes : Key → String → String → Call
  retries : Key → String → ℕ → ℕ → Call
  terminates : Key → IncidentState → Call
  actuates : Key → Call
  reobserves : Key → Call
  resolves : Key → Call
  makes_actionable : Key → Call

-- The table after a call; a call that raises has changed nothing.
abbrev pub committed : {A : Type 0} → Table → Result TransitionError (A × Table) → Table
committed rows (ok (_, after)) = after
committed rows (err _) = rows

unfoldable pub call : Call → Table → Table
call (claims k incident_id now) rows = (try_claim_incident k incident_id now rows).1
call (leases k worker ttl now) rows = committed rows (acquire_lease k worker ttl now rows)
call (hypothesizes k worker h) rows = committed rows (update_hypothesis k worker h rows)
call (retries k worker delay now) rows = committed rows (schedule_retry k worker delay now rows)
call (terminates k s) rows = committed rows (terminate_incident k s rows)
call (actuates k) rows = committed rows (transition_to_actuating k rows)
call (reobserves k) rows = committed rows (transition_to_reobserving k rows)
call (resolves k) rows = committed rows (resolve_reobserved k rows)
call (makes_actionable k) rows = committed rows (commit_actionable k rows)

unfoldable pub calls : List Call → Table → Table
calls [] rows = rows
calls (c ∷ cs) rows = calls cs (call c rows)

pub find-write_first :
    {A : Type 0} (p q : A → Bool) (f : A → A) (l : List A) {r : A}
    → ((x : A) → q (f x) ≡ q x)
    → find q l ≡ some r
    → (find q (write_first p f l) ≡ some r)
      ⊎ ((find q (write_first p f l) ≡ some (f r)) × (find p l ≡ some r))
find-write_first p q f [] keep h = cc
find-write_first p q f (x ∷ xs) {r} keep h = elim (Bool-cases (p x)) [
  | inl e ↦ elim (Bool-cases (q x)) [
    | inl g ↦ let s : r ≡ x = some_injective (rw g at h) in inr (rw (e, keep x, g, s) (refl, refl))
    | inr g ↦ inl (rw (e, keep x, g) (rw g at h))
  ]
  | inr e ↦ elim (Bool-cases (q x)) [
    | inl g ↦ inl (rw (e, g) (rw g at h))
    | inr g ↦ rw (e, g) (find-write_first p q f xs keep (rw g at h))
  ]
]

find-append :
    {A : Type 0} (q : A → Bool) (l m : List A) {r : A}
    → find q l ≡ some r
    → find q (l ++ m) ≡ some r
find-append q [] m h = cc
find-append q (x ∷ xs) m h = elim (Bool-cases (q x)) [
  | inl e ↦ rw e (rw e at h)
  | inr e ↦ rw e (find-append q xs m (rw e at h))
]

pub accepts_itself : (s : IncidentState) → assert_valid_transition s s ≡ ok tt
unfolding assert_valid_transition
accepts_itself s = ground arith

-- A state that was left, or kept, by a call that asks for another.
abbrev pub Step : IncidentState → IncidentState → IncidentState → Type 0
Step s asked t = (t ≡ s) ⊎ ((t ≡ asked) × (assert_valid_transition s asked ≡ ok tt))

-- Where the row of a key went, if a call asks for `ask s` of an incident that is in the state `s`.
pub record Moved (k : Key) (r : IncidentRecord) (ask : IncidentState → IncidentState) (rows : Table)
    : Type 0 where
  pub row : IncidentRecord
  pub found : find (has_key k) rows ≡ some row
  pub step : Step r.state (ask r.state) row.state

stayed :
    {k : Key} {r : IncidentRecord} {rows : Table} (ask : IncidentState → IncidentState)
    → find (has_key k) rows ≡ some r
    → Moved k r ask rows
stayed {k} {r} ask h = record { row = r; found = h; step = inl refl }

-- The first row of a filter is written by an accepted transition.
write_moves :
    (k : Key) (ask : IncidentState → IncidentState) (p : IncidentRecord → Bool)
    (g : IncidentRecord → IncidentRecord) (rows : Table) {r x : IncidentRecord}
    → ((y : IncidentRecord) → has_key k (g y) ≡ has_key k y)
    → ((y : IncidentRecord) → (g y).state ≡ ask y.state)
    → find (has_key k) rows ≡ some r
    → find p rows ≡ some x
    → assert_valid_transition x.state (ask x.state) ≡ ok tt
    → Moved k r ask (write_first p g rows)
write_moves k ask p g rows {r} {x} keep sets h e a =
    elim (find-write_first p (has_key k) g rows keep h) [
      | inl same ↦ stayed ask same
      | inr (written, first) ↦
          let s : r ≡ x = some_injective (sym e ∙ first) in
          record { row = g r; found = written; step = inr (sets r, rw s a) }
    ]

advance_moves :
    (k : Key) (p : IncidentRecord → Bool) (t : IncidentState) (f : IncidentRecord → IncidentRecord)
    (rows : Table) {r : IncidentRecord}
    → ((x : IncidentRecord) → has_key k (f (record x { state = t })) ≡ has_key k x)
    → ((x : IncidentRecord) → (f (record x { state = t })).state ≡ t)
    → find (has_key k) rows ≡ some r
    → Moved k r (λ _. t) (committed rows (advance p t f rows))
unfolding advance
advance_moves k p t f rows keep sets h = elim (Option-cases (find p rows)) [
  | inl e ↦ rw e (stayed _ h)
  | inr (x, e) ↦ elim (Result-cases (assert_valid_transition x.state t)) [
    | inr (_, a) ↦ rw (e, a) (stayed _ h)
    | inl (_, a) ↦
        rw (e, a) (write_moves k (λ _. t) p (λ x. f (record x { state = t })) rows keep sets h e a)
  ]
]

lease_moves :
    (k j : Key) (worker : String) (ttl now : ℕ) (rows : Table) {r : IncidentRecord}
    → find (has_key k) rows ≡ some r
    → Moved k r leased_state (committed rows (acquire_lease j worker ttl now rows))
lease_moves k j worker ttl now rows h = elim (Option-cases (find (has_key j) rows)) [
  | inl e ↦ rw (acquire_lease_missing j worker ttl now rows e) (stayed _ h)
  | inr (x, e) ↦ elim (Bool-cases (is_leasable worker now x)) [
    | inr n ↦ rw (acquire_lease_found j worker ttl now rows e, n) (stayed _ h)
    | inl y ↦
        rw (acquire_lease_found j worker ttl now rows e, y)
          (write_moves k leased_state (has_key j) (leased worker (now + seconds ttl)) rows
            (λ x. refl) (λ x. refl) h e (leased_state-accepted x.state))
  ]
]

claim_moves :
    (k j : Key) (incident_id : String) (now : ℕ) (rows : Table) {r : IncidentRecord}
    → find (has_key k) rows ≡ some r
    → Moved k r (λ s. s) (try_claim_incident j incident_id now rows).1
unfolding try_claim_incident
claim_moves k j incident_id now rows h =
    elim (Bool-cases (any (λ r. has_key j r || r.incident_id == incident_id) rows)) [
      | inl e ↦ rw e (stayed _ h)
      | inr e ↦ rw e (stayed _ (find-append (has_key k) rows _ h))
    ]

actionable_moves :
    (k j : Key) (rows : Table) {r : IncidentRecord}
    → find (has_key k) rows ≡ some r
    → Moved k r (λ _. actionable) (committed rows (commit_actionable j rows))
unfolding commit_actionable
actionable_moves k j rows h = elim (Option-cases (find (has_key j) rows)) [
  | inl e ↦ rw e (stayed _ h)
  | inr (x, e) ↦ elim (Bool-cases (is_investigated x.state)) [
    | inr n ↦ rw (e, n) (stayed _ h)
    | inl y ↦ elim (Result-cases (assert_valid_transition x.state actionable)) [
      | inr (_, a) ↦ rw (e, y, a) (stayed _ h)
      | inl (_, a) ↦
          rw (e, y, a)
            (write_moves k (λ _. actionable) (has_key j) (λ x. record x { state = actionable }) rows
              (λ x. refl) (λ x. refl) h e a)
    ]
  ]
]

-- The state that a call asks for, of an incident in a state: that of its method.
abbrev pub asked_by : Call → IncidentState → IncidentState
asked_by (claims k incident_id now) s = s
asked_by (leases k worker ttl now) s = leased_state s
asked_by (hypothesizes k worker h) s = verifying
asked_by (retries k worker delay now) s = investigating
asked_by (terminates k t) s = t
asked_by (actuates k) s = actuating
asked_by (reobserves k) s = reobserving
asked_by (resolves k) s = resolved
asked_by (makes_actionable k) s = actionable

-- From a state to another by the calls, each of which keeps the state or moves it to the one that it asks
-- for, which the state machine then accepts.
abbrev pub Traced : List Call → IncidentState → IncidentState → Type 0
Traced [] s u = s ≡ u
Traced (c ∷ cs) s u = (t : IncidentState) × Step s (asked_by c s) t × Traced cs t u

call_moves :
    (k : Key) (c : Call) (rows : Table) {r : IncidentRecord}
    → find (has_key k) rows ≡ some r
    → Moved k r (asked_by c) (call c rows)
unfolding call update_hypothesis schedule_retry terminate_incident transition_to_actuating
    transition_to_reobserving resolve_reobserved
call_moves k (claims j i now) rows h = claim_moves k j i now rows h
call_moves k (leases j worker ttl now) rows h = lease_moves k j worker ttl now rows h
call_moves k (hypothesizes j worker t) rows h =
    advance_moves k (has_lease j worker) verifying _ rows (λ x. refl) (λ x. refl) h
call_moves k (retries j worker delay now) rows h =
    advance_moves k (has_lease j worker) investigating _ rows (λ x. refl) (λ x. refl) h
call_moves k (terminates j s) rows h =
    advance_moves k (has_key j) s released rows (λ x. refl) (λ x. refl) h
call_moves k (actuates j) rows h =
    advance_moves k (has_key j) actuating (λ r. r) rows (λ x. refl) (λ x. refl) h
call_moves k (reobserves j) rows h =
    advance_moves k (has_key j) reobserving (λ r. r) rows (λ x. refl) (λ x. refl) h
call_moves k (resolves j) rows h =
    advance_moves k (has_key j) resolved released rows (λ x. refl) (λ x. refl) h
call_moves k (makes_actionable j) rows h = actionable_moves k j rows h

-- Whatever is called of the methods that go through the state machine, in whatever order and by whatever
-- workers, an incident keeps its row, and each call leaves its state or moves it to the state of that method
-- by a transition that the state machine accepts.
pub calls-Traced :
    (k : Key) (cs : List Call) (rows : Table) {r : IncidentRecord}
    → get_active_incident k rows ≡ some r
    → (after : IncidentRecord) × (get_active_incident k (calls cs rows) ≡ some after)
      × Traced cs r.state after.state
unfolding calls get_active_incident
calls-Traced k [] rows {r} h = (r, h, refl)
calls-Traced k (c ∷ cs) rows {r} h =
    let m = call_moves k c rows h in
    let (after, found, path) = calls-Traced k cs (call c rows) m.found in
    (after, found, (m.row.state, m.step, path))
