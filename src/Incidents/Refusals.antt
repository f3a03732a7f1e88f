-- ===== src/Incidents/Refusals.antt =====
-- What the methods of `PostgresActiveIncidentRepository` refuse after one another
-- (src/storage/postgres_substrate.py; src/engine/worker.py calls them in these orders).
use financial_control_engine.Base.{
  ℕ, ◌+◌, ◌<◌, String, ◌≡◌, ◌⊎◌, inl, inr, refl, ◌∙◌, Bool, true, false, [], ◌∷◌, find, write_first,
  none, some, ok, err, arith, Bool-cases, Option-cases, Result-cases, some_injective, eq_refl, All,
}
use financial_control_engine.Lifecycle.{
  IncidentState, investigating, verifying, actionable, actuation_pending, actuating, reobserving,
  resolved, assert_valid_transition, invalid_transition,
}
use financial_control_engine.Incidents.Records.{
  IncidentRecord, Key, has_key, key_of, DistinctKeys, has_key-eq,
}
use financial_control_engine.Incidents.Leases.{
  is_leasable, acquire_lease_found, acquire_lease-Granted,
}
use financial_control_engine.Incidents.Repository.{
  Table, is_owner, seconds, acquire_lease, has_lease, retried, schedule_retry, terminate_incident,
}

no_key :
    (k : Key) (r : IncidentRecord) (l : Table)
    → has_key k r ≡ true
    → All (λ (x : IncidentRecord). has_key (key_of r) x ≡ false) l
    → find (has_key k) l ≡ none
no_key k r [] h d = refl
no_key k r (x ∷ xs) h d = rw (has_key-eq k r x h ∙ d.0) (no_key k r xs h d.1)

no_key-lease :
    (k : Key) (worker : String) (l : Table)
    → find (has_key k) l ≡ none
    → find (has_lease k worker) l ≡ none
no_key-lease k worker [] h = refl
no_key-lease k worker (x ∷ xs) h = elim (Bool-cases (has_key k x)) [
  | inl e ↦ absurd (cc (rw e at h))
  | inr e ↦ rw e (no_key-lease k worker xs (rw e at h))
]

-- With unique keys, the row that a worker holds is the row of the incident.
held_found :
    (k : Key) (worker : String) (l : Table) {r : IncidentRecord}
    → DistinctKeys l
    → find (has_lease k worker) l ≡ some r
    → find (has_key k) l ≡ some r
held_found k worker [] d h = cc
held_found k worker (x ∷ xs) d h = elim (Bool-cases (has_key k x)) [
  | inr e ↦ rw e (held_found k worker xs d.1 (rw e at h))
  | inl e ↦ elim (Bool-cases (is_owner x.lease_owner worker)) [
    | inl g ↦ rw e (rw (e, g) at h)
    | inr g ↦ absurd (cc (rw (e, g) at h, no_key-lease k worker xs (no_key k x xs e d.0)))
  ]
]

held_written :
    (k : Key) (worker : String) (f : IncidentRecord → IncidentRecord) (l : Table)
    {r : IncidentRecord}
    → ((x : IncidentRecord) → has_key k (f x) ≡ has_key k x)
    → DistinctKeys l
    → find (has_lease k worker) l ≡ some r
    → find (has_key k) (write_first (has_lease k worker) f l) ≡ some (f r)
held_written k worker f [] keep d h = cc
held_written k worker f (x ∷ xs) {r} keep d h = elim (Bool-cases (has_key k x)) [
  | inr e ↦ rw (e, e) (held_written k worker f xs keep d.1 (rw e at h))
  | inl e ↦ elim (Bool-cases (is_owner x.lease_owner worker)) [
    | inl g ↦ let s : r ≡ x = some_injective (rw (e, g) at h) in rw (e, g, keep x, e, s) refl
    | inr g ↦ absurd (cc (rw (e, g) at h, no_key-lease k worker xs (no_key k x xs e d.0)))
  ]
]

retry_written :
    (k : Key) (worker : String) (delay now : ℕ) (rows : Table) {after : Table}
    → schedule_retry k worker delay now rows ≡ ok (true, after)
    → (r : IncidentRecord) × (find (has_lease k worker) rows ≡ some r)
      × (after
          ≡ write_first
              (has_lease k worker)
              (λ x. retried (now + seconds delay) (record x { state = investigating }))
              rows)
unfolding schedule_retry
retry_written k worker delay now rows h = elim (Option-cases (find (has_lease k worker) rows)) [
  | inl e ↦ absurd (cc (rw e at h))
  | inr (r, e) ↦ elim (Result-cases (assert_valid_transition r.state investigating)) [
    | inr (_, a) ↦ absurd (cc (rw (e, a) at h))
    | inl (_, a) ↦ (r, e, cc (rw (e, a) at h))
  ]
]

-- After a retry was scheduled, no worker gets the lease before the delay has passed: the call returns
-- nothing and changes nothing.
pub retry_backs_off :
    (k : Key) (worker other : String) (delay now ttl now' : ℕ) (rows : Table) {after : Table}
    → DistinctKeys rows
    → schedule_retry k worker delay now rows ≡ ok (true, after)
    → now' < now + seconds delay
    → acquire_lease k other ttl now' after ≡ ok (none, after)
retry_backs_off k worker other delay now ttl now' rows {after} d h t =
    let (r, held, w) = retry_written k worker delay now rows h in
    let f =
      λ (x : IncidentRecord). retried (now + seconds delay) (record x { state = investigating }) in
    let g : find (has_key k) after ≡ some (f r) =
      rw w (held_written k worker f rows (λ x. refl) d held) in
    let waits : is_leasable other now' (f r) ≡ false = ground arith in
    acquire_lease_found k other ttl now' after g ∙ (rw waits refl)

-- While the incident is INVESTIGATING or VERIFYING under a worker's lease, terminating it as RESOLVED
-- raises: the state machine has no such transition.
pub early_resolve_raises :
    (k : Key) (worker : String) (ttl now : ℕ) (rows : Table) {got : IncidentRecord} {after : Table}
    → acquire_lease k worker ttl now rows ≡ ok (some got, after)
    → (got.state ≡ investigating) ⊎ (got.state ≡ verifying)
    → terminate_incident k resolved after ≡ err (invalid_transition got.state resolved)
unfolding terminate_incident assert_valid_transition
early_resolve_raises k worker ttl now rows h (inl s) =
    let g = acquire_lease-Granted k worker ttl now rows h in rw (g.found_after, s) refl
early_resolve_raises k worker ttl now rows h (inr s) =
    let g = acquire_lease-Granted k worker ttl now rows h in rw (g.found_after, s) refl

found_held :
    (k : Key) (worker : String) (l : Table) {r : IncidentRecord}
    → find (has_key k) l ≡ some r
    → is_owner r.lease_owner worker ≡ true
    → find (has_lease k worker) l ≡ some r
found_held k worker [] h o = cc
found_held k worker (x ∷ xs) {r} h o = elim (Bool-cases (has_key k x)) [
  | inl e ↦ let s : r ≡ x = some_injective (rw e at h) in rw (e, ← s, o, s) refl
  | inr e ↦ rw e (found_held k worker xs (rw e at h) o)
]

-- The states from ACTIONABLE to REOBSERVING.
abbrev pub is_dispatched : IncidentState → Bool
is_dispatched actionable = true
is_dispatched actuation_pending = true
is_dispatched actuating = true
is_dispatched reobserving = true
is_dispatched _ = false

-- A worker that leased an incident which is ACTIONABLE, ACTUATING or REOBSERVING then cannot schedule
-- a retry of it: the call raises.
pub dispatched_retry_raises :
    (k : Key) (worker : String) (ttl now delay later : ℕ) (rows : Table) {got : IncidentRecord}
    {after : Table}
    → acquire_lease k worker ttl now rows ≡ ok (some got, after)
    → is_dispatched got.state ≡ true
    → schedule_retry k worker delay later after ≡ err (invalid_transition got.state investigating)
unfolding schedule_retry assert_valid_transition
dispatched_retry_raises k worker ttl now delay later rows {got} {after} h s =
    let g = acquire_lease-Granted k worker ttl now rows h in
    let held : find (has_lease k worker) after ≡ some got =
      found_held k worker after g.found_after (rw (g.got_is) (eq_refl worker)) in
    rw held (ground arith)
