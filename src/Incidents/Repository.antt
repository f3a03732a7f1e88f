-- ===== src/Incidents/Repository.antt =====
-- `PostgresActiveIncidentRepository` of src/storage/postgres_substrate.py. Each method is a function of
-- the table; a method that raises leaves the table as it was, since its session never commits.
use financial_control_engine.Base.{
  ℕ, ◌+◌, ◌*◌, String, ◌==◌, Bool, true, false, not, ◌&&◌, ◌||◌, List, [], ◌∷◌, ◌++◌, any, find,
  keep, length, write_first, Option, none, some, Result, ok, err, if◌then◌else◌, ltb, nat_eq,
}
use financial_control_engine.Lifecycle.{
  IncidentState, detected, investigating, verifying, actionable, actuation_pending, actuating,
  reobserving, resolved, active, retry_pending, TransitionError, state_eq, assert_valid_transition,
}
use financial_control_engine.Lifecycle.Paths.{is_final, is_escalated}
use financial_control_engine.Incidents.Records.{IncidentRecord, Key, has_key}

abbrev pub Table : Type 0
Table = List IncidentRecord

-- `value.startswith("ESCALATED")`, RESOLVED and COMPLETED
abbrev pub is_closed : IncidentState → Bool
is_closed s = is_final s || is_escalated s

-- `count_active`
unfoldable pub count_active : Table → ℕ
count_active rows = length (keep (λ (r : IncidentRecord). not (is_closed r.state)) rows)

-- `get_active_incident`
unfoldable pub get_active_incident : Key → Table → Option IncidentRecord
get_active_incident k rows = find (has_key k) rows

-- The unique columns that an inserted row may clash with.
abbrev clashes : Key → String → IncidentRecord → Bool
clashes k incident_id r = has_key k r || r.incident_id == incident_id

abbrev pub new_incident : Key → String → ℕ → IncidentRecord
new_incident k incident_id now = record {
  active_subject = k.subject;
  discrepancy_reason = k.reason;
  incident_id = incident_id;
  state = detected;
  lease_owner = none;
  lease_expires_at = none;
  hypothesis_payload = none;
  retry_count = 0;
  next_retry_at = none;
  version = 1;
  created_at = now;
}

-- `try_claim_incident`: an `IntegrityError` is answered by `False`.
unfoldable pub try_claim_incident : Key → String → ℕ → Table → Bool × Table
try_claim_incident k incident_id now rows =
    if any (clashes k incident_id) rows
    then (false, rows)
    else (true, rows ++ new_incident k incident_id now ∷ [])

-- The state that a lease moves an incident to.
unfoldable pub leased_state : IncidentState → IncidentState
leased_state detected = investigating
leased_state active = investigating
leased_state retry_pending = investigating
leased_state actuation_pending = actuating
leased_state s = s

abbrev pub is_after : Option ℕ → ℕ → Bool
is_after none now = false
is_after (some t) now = ltb now t

abbrev pub is_before : Option ℕ → ℕ → Bool
is_before none now = true
is_before (some t) now = ltb t now

abbrev pub is_owner : Option String → String → Bool
is_owner none worker = false
is_owner (some w) worker = w == worker

abbrev pub seconds : ℕ → ℕ
seconds n = n * 1000000

-- `if current_state != new_state: assert_valid_transition(…)`
abbrev checked : IncidentState → IncidentState → Result TransitionError (Unit {0})
checked s t = if state_eq s t then ok tt else assert_valid_transition s t

abbrev pub leased : String → ℕ → IncidentRecord → IncidentRecord
leased worker expires r = record r {
  state = leased_state r.state;
  lease_owner = some worker;
  lease_expires_at = some expires;
}

-- The lease can be taken: there is none, it has expired, or it is the worker's own.
abbrev pub is_free : String → ℕ → IncidentRecord → Bool
is_free worker now r = is_before r.lease_expires_at now || is_owner r.lease_owner worker

abbrev take_lease :
    Result TransitionError (Unit {0})
    → Key
    → String
    → ℕ
    → ℕ
    → IncidentRecord
    → Table
    → Result TransitionError (Option IncidentRecord × Table)
take_lease (err e) k worker expires now r rows = err e
take_lease (ok _) k worker expires now r rows =
    if is_free worker now r
    then ok (some (leased worker expires r), write_first (has_key k) (leased worker expires) rows)
    else ok (none, rows)

abbrev lease_row :
    Key
    → String
    → ℕ
    → ℕ
    → Option IncidentRecord
    → Table
    → Result TransitionError (Option IncidentRecord × Table)
lease_row k worker expires now none rows = ok (none, rows)
lease_row k worker expires now (some r) rows =
    if is_closed r.state || is_after r.next_retry_at now
    then ok (none, rows)
    else take_lease (checked r.state (leased_state r.state)) k worker expires now r rows

-- `acquire_lease`
unfoldable pub acquire_lease :
    Key → String → ℕ → ℕ → Table → Result TransitionError (Option IncidentRecord × Table)
unfolding leased_state
acquire_lease k worker ttl_seconds now rows =
    lease_row k worker (now + seconds ttl_seconds) now (find (has_key k) rows) rows

-- What most methods do: the first row of a filter is moved to a state that the state machine accepts.
abbrev advance_row :
    Result TransitionError (Unit {0})
    → (IncidentRecord → Bool)
    → IncidentState
    → (IncidentRecord → IncidentRecord)
    → Table
    → Result TransitionError (Bool × Table)
advance_row (err e) p target f rows = err e
advance_row (ok _) p target f rows =
    ok (true, write_first p (λ r. f (record r { state = target })) rows)

abbrev advance_found :
    Option IncidentRecord
    → (IncidentRecord → Bool)
    → IncidentState
    → (IncidentRecord → IncidentRecord)
    → Table
    → Result TransitionError (Bool × Table)
advance_found none p target f rows = ok (false, rows)
advance_found (some r) p target f rows =
    advance_row (assert_valid_transition r.state target) p target f rows

unfoldable pub advance :
    (IncidentRecord → Bool)
    → IncidentState
    → (IncidentRecord → IncidentRecord)
    → Table
    → Result TransitionError (Bool × Table)
advance p target f rows = advance_found (find p rows) p target f rows

abbrev pub has_lease : Key → String → IncidentRecord → Bool
has_lease k worker r = has_key k r && is_owner r.lease_owner worker

-- `update_hypothesis`, of a hypothesis as JSON text
unfoldable pub update_hypothesis :
    Key → String → String → Table → Result TransitionError (Bool × Table)
unfolding advance
update_hypothesis k worker hypothesis =
    advance (has_lease k worker) verifying (λ r. record r { hypothesis_payload = some hypothesis })

abbrev pub retried : ℕ → IncidentRecord → IncidentRecord
retried due r = record r {
  retry_count = r.retry_count + 1;
  next_retry_at = some due;
  lease_owner = none;
  lease_expires_at = none;
}

-- `schedule_retry`
unfoldable pub schedule_retry : Key → String → ℕ → ℕ → Table → Result TransitionError (Bool × Table)
unfolding advance
schedule_retry k worker retry_delay_seconds now =
    advance (has_lease k worker) investigating (retried (now + seconds retry_delay_seconds))

abbrev pub released : IncidentRecord → IncidentRecord
released r = record r { lease_owner = none; lease_expires_at = none }

-- `terminate_incident`
unfoldable pub terminate_incident :
    Key → IncidentState → Table → Result TransitionError (Bool × Table)
unfolding advance
terminate_incident k terminal_state = advance (has_key k) terminal_state released

-- `transition_to_actuating`
unfoldable pub transition_to_actuating : Key → Table → Result TransitionError (Bool × Table)
unfolding advance
transition_to_actuating k = advance (has_key k) actuating (λ r. r)

-- `transition_to_reobserving`
unfoldable pub transition_to_reobserving : Key → Table → Result TransitionError (Bool × Table)
unfolding advance
transition_to_reobserving k = advance (has_key k) reobserving (λ r. r)

-- The rows of the incident that `persist_reobservation_and_resolve` moves.
unfoldable pub resolve_reobserved : Key → Table → Result TransitionError (Bool × Table)
unfolding advance
resolve_reobserved k = advance (has_key k) resolved released

abbrev pub is_investigated : IncidentState → Bool
is_investigated detected = true
is_investigated investigating = true
is_investigated verifying = true
is_investigated _ = false

abbrev make_actionable : Option IncidentRecord → Key → Table → Result TransitionError (Bool × Table)
make_actionable none k rows = ok (false, rows)
make_actionable (some r) k rows =
    if is_investigated r.state
    then advance_row (assert_valid_transition r.state actionable) (has_key k) actionable (λ x. x)
        rows
    else ok (false, rows)

-- The third step of `commit_verification_success`.
unfoldable pub commit_actionable : Key → Table → Result TransitionError (Bool × Table)
commit_actionable k rows = make_actionable (find (has_key k) rows) k rows

abbrev pub at_version : Key → ℕ → IncidentRecord → Bool
at_version k version r = has_key k r && nat_eq r.version version

-- `update_incident_state_occ`: the rows of the filter get the state and the next version.
unfoldable pub occ_rows : Key → ℕ → IncidentState → Table → Table
occ_rows k version state [] = []
occ_rows k version state (r ∷ rs) =
    (if at_version k version r then record r { state = state; version = version + 1 } else r)
    ∷ occ_rows k version state rs

unfoldable pub update_incident_state_occ : Key → ℕ → IncidentState → Table → Bool × Table
unfolding occ_rows
update_incident_state_occ k current_version new_state rows =
    (any (at_version k current_version) rows, occ_rows k current_version new_state rows)
