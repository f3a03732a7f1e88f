-- ===== src/Incidents/Closed.antt =====
-- The transitions that sequences of calls of `PostgresActiveIncidentRepository`
-- (src/storage/postgres_substrate.py) take an incident through, and its final states.
use financial_control_engine.Base.{◌≡◌, inl, inr, ap, true, List, [], ◌∷◌, some, ok}
use financial_control_engine.Lifecycle.{IncidentState, assert_valid_transition}
use financial_control_engine.Lifecycle.Paths.{follow, follow_final, is_final}
use financial_control_engine.Incidents.Records.{IncidentRecord, Key}
use financial_control_engine.Incidents.Repository.{Table, get_active_incident}
use financial_control_engine.Incidents.Moves.{
  Call, calls, Step, Traced, accepts_itself, calls-Traced,
}

Step-accepted : {s asked t : IncidentState} → Step s asked t → assert_valid_transition s t ≡ ok tt
Step-accepted {s} {asked} {t} (inl e) = rw e (accepts_itself s)
Step-accepted {s} {asked} {t} (inr (e, a)) = rw e a

follow_more :
    (s t : IncidentState) (ts : List IncidentState) {u : IncidentState}
    → assert_valid_transition s t ≡ ok tt
    → follow t ts ≡ ok u
    → follow s (t ∷ ts) ≡ ok u
unfolding follow
follow_more s t ts a h = rw (a, follow) h

Traced-follow :
    (cs : List Call) (s u : IncidentState)
    → Traced cs s u
    → (ts : List IncidentState) × (follow s ts ≡ ok u)
unfolding follow
Traced-follow [] s u h = ([], ap ok h)
Traced-follow (c ∷ cs) s u (t, step, rest) =
    let (ts, path) = Traced-follow cs t u rest in
    (t ∷ ts, follow_more s t ts (Step-accepted step) path)

-- The state of an incident has followed a sequence of transitions that the state machine accepts.
pub calls-follow :
    (k : Key) (cs : List Call) (rows : Table) {r : IncidentRecord}
    → get_active_incident k rows ≡ some r
    → (after : IncidentRecord) × (get_active_incident k (calls cs rows) ≡ some after)
      × ((ts : List IncidentState) × (follow r.state ts ≡ ok after.state))
calls-follow k cs rows {r} h =
    let (after, found, path) = calls-Traced k cs rows h in
    (after, found, Traced-follow cs r.state after.state path)

-- An incident that is RESOLVED or COMPLETED is in the same state after any calls of these methods.
pub closed_stays :
    (k : Key) (cs : List Call) (rows : Table) {r : IncidentRecord}
    → get_active_incident k rows ≡ some r
    → is_final r.state ≡ true
    → (after : IncidentRecord) × (get_active_incident k (calls cs rows) ≡ some after)
      × (after.state ≡ r.state)
closed_stays k cs rows {r} h f =
    let (after, found, (ts, path)) = calls-follow k cs rows h in
    (after, found, follow_final r.state after.state ts f path)
