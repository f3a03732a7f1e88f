-- ===== src/Incidents/Keys.antt =====
-- The primary key and the version of an incident (src/storage/postgres_substrate.py).
use financial_control_engine.Base.{
  ℕ, ◌+◌, String, ◌==◌, ◌≡◌, inl, inr, refl, sym, ap, subst, ◌∙◌, Bool, true, false, ◌||◌, List, [],
  ◌∷◌, ◌++◌, find, any, write_first, some, arith, Bool-cases, Option-cases, Result-cases, All,
  All-append, eq_iff, eq_refl,
}
use financial_control_engine.Lifecycle.{
  IncidentState, investigating, verifying, actionable, actuating, reobserving, resolved,
  assert_valid_transition,
}
use financial_control_engine.Incidents.Records.{IncidentRecord, Key, has_key, key_of, DistinctKeys}
use financial_control_engine.Incidents.Leases.{
  is_leasable, acquire_lease_found, acquire_lease_missing,
}
use financial_control_engine.Incidents.Repository.{
  Table, try_claim_incident, new_incident, is_investigated, seconds, leased, acquire_lease, advance,
  has_lease, released, update_hypothesis, schedule_retry, terminate_incident,
  transition_to_actuating, transition_to_reobserving, resolve_reobserved, commit_actionable,
  get_active_incident,
}
use financial_control_engine.Incidents.Moves.{
  Call, claims, leases, hypothesizes, retries, terminates, actuates, reobserves, resolves,
  makes_actionable, committed, call, calls,
}
use financial_control_engine.Incidents.Closed.{calls-follow}

All-write_first :
    {A : Type 0} (P : A → Type 0) (p : A → Bool) (f : A → A) (l : List A)
    → ((x : A) → P x → P (f x))
    → All P l
    → All P (write_first p f l)
All-write_first P p f [] keep h = tt
All-write_first P p f (x ∷ xs) keep h = elim (Bool-cases (p x)) [
  | inl e ↦ rw e (keep x h.0, h.1)
  | inr e ↦ rw e (h.0, All-write_first P p f xs keep h.1)
]

write_first-DistinctKeys :
    (p : IncidentRecord → Bool) (f : IncidentRecord → IncidentRecord) (l : Table)
    → ((k : Key) (x : IncidentRecord) → has_key k (f x) ≡ has_key k x)
    → ((x : IncidentRecord) → key_of (f x) ≡ key_of x)
    → DistinctKeys l
    → DistinctKeys (write_first p f l)
write_first-DistinctKeys p f [] has same d = tt
write_first-DistinctKeys p f (x ∷ xs) has same d = elim (Bool-cases (p x)) [
  | inl e ↦ rw e (subst (λ q. All (λ y. has_key q y ≡ false) xs) (sym (same x)) d.0, d.1)
  | inr e ↦ rw e (
    All-write_first (λ y. has_key (key_of x) y ≡ false) p f xs (λ y h. has (key_of x) y ∙ h) d.0,
    write_first-DistinctKeys p f xs has same d.1,
  )
]

advance-DistinctKeys :
    (p : IncidentRecord → Bool) (t : IncidentState) (f : IncidentRecord → IncidentRecord)
    (rows : Table)
    → ((k : Key) (x : IncidentRecord) → has_key k (f (record x { state = t })) ≡ has_key k x)
    → ((x : IncidentRecord) → key_of (f (record x { state = t })) ≡ key_of x)
    → DistinctKeys rows
    → DistinctKeys (committed rows (advance p t f rows))
unfolding advance
advance-DistinctKeys p t f rows has same d = elim (Option-cases (find p rows)) [
  | inl e ↦ rw e d
  | inr (x, e) ↦ elim (Result-cases (assert_valid_transition x.state t)) [
    | inr (_, a) ↦ rw (e, a) d
    | inl (_, a) ↦
        rw (e, a) (write_first-DistinctKeys p (λ x. f (record x { state = t })) rows has same d)
  ]
]

lease-DistinctKeys :
    (k : Key) (worker : String) (ttl now : ℕ) (rows : Table)
    → DistinctKeys rows
    → DistinctKeys (committed rows (acquire_lease k worker ttl now rows))
lease-DistinctKeys k worker ttl now rows d = elim (Option-cases (find (has_key k) rows)) [
  | inl e ↦ rw (acquire_lease_missing k worker ttl now rows e) d
  | inr (x, e) ↦ elim (Bool-cases (is_leasable worker now x)) [
    | inr n ↦ rw (acquire_lease_found k worker ttl now rows e, n) d
    | inl y ↦
        rw (acquire_lease_found k worker ttl now rows e, y)
          (write_first-DistinctKeys (has_key k) (leased worker (now + seconds ttl)) rows
            (λ k x. refl) (λ x. refl) d)
  ]
]

actionable-DistinctKeys :
    (k : Key) (rows : Table)
    → DistinctKeys rows
    → DistinctKeys (committed rows (commit_actionable k rows))
unfolding commit_actionable
actionable-DistinctKeys k rows d = elim (Option-cases (find (has_key k) rows)) [
  | inl e ↦ rw e d
  | inr (x, e) ↦ elim (Bool-cases (is_investigated x.state)) [
    | inr n ↦ rw (e, n) d
    | inl y ↦ elim (Result-cases (assert_valid_transition x.state actionable)) [
      | inr (_, a) ↦ rw (e, y, a) d
      | inl (_, a) ↦
          rw (e, y, a)
            (write_first-DistinctKeys (has_key k) (λ x. record x { state = actionable }) rows
              (λ k x. refl) (λ x. refl) d)
    ]
  ]
]

has_key_comm : (r x : IncidentRecord) → has_key (key_of r) x ≡ has_key (key_of x) r
has_key_comm r x = ground (
  arith,
  eq_iff r.active_subject x.active_subject,
  eq_iff x.active_subject r.active_subject,
  eq_iff r.discrepancy_reason x.discrepancy_reason,
  eq_iff x.discrepancy_reason r.discrepancy_reason,
)

append-DistinctKeys :
    (x : IncidentRecord) (rows : Table)
    → any (λ (r : IncidentRecord). has_key (key_of x) r || r.incident_id == x.incident_id) rows
      ≡ false
    → DistinctKeys rows
    → DistinctKeys (rows ++ x ∷ [])
append-DistinctKeys x [] n d = (tt, tt)
append-DistinctKeys x (r ∷ rs) n d = elim (Bool-cases (has_key (key_of x) r)) [
  | inl e ↦ absurd (cc (rw e at n))
  | inr e ↦ elim (Bool-cases (r.incident_id == x.incident_id)) [
    | inl g ↦ absurd (cc (rw (e, g) at n))
    | inr g ↦ (
      All-append (λ y. has_key (key_of r) y ≡ false) rs (x ∷ []) d.0 ((has_key_comm r x ∙ e), tt),
      append-DistinctKeys x rs (rw (e, g) at n) d.1,
    )
  ]
]

claim-DistinctKeys :
    (k : Key) (incident_id : String) (now : ℕ) (rows : Table)
    → DistinctKeys rows
    → DistinctKeys (try_claim_incident k incident_id now rows).1
unfolding try_claim_incident
claim-DistinctKeys k incident_id now rows d =
    elim (Bool-cases (any (λ r. has_key k r || r.incident_id == incident_id) rows)) [
      | inl e ↦ rw e d
      | inr e ↦ rw e (append-DistinctKeys (new_incident k incident_id now) rows e d)
    ]

call-DistinctKeys : (c : Call) (rows : Table) → DistinctKeys rows → DistinctKeys (call c rows)
unfolding call update_hypothesis schedule_retry terminate_incident transition_to_actuating
    transition_to_reobserving resolve_reobserved
call-DistinctKeys (claims k i now) rows d = claim-DistinctKeys k i now rows d
call-DistinctKeys (leases k worker ttl now) rows d = lease-DistinctKeys k worker ttl now rows d
call-DistinctKeys (hypothesizes k worker t) rows d =
    advance-DistinctKeys (has_lease k worker) verifying _ rows (λ k x. refl) (λ x. refl) d
call-DistinctKeys (retries k worker delay now) rows d =
    advance-DistinctKeys (has_lease k worker) investigating _ rows (λ k x. refl) (λ x. refl) d
call-DistinctKeys (terminates k s) rows d =
    advance-DistinctKeys (has_key k) s released rows (λ k x. refl) (λ x. refl) d
call-DistinctKeys (actuates k) rows d =
    advance-DistinctKeys (has_key k) actuating (λ r. r) rows (λ k x. refl) (λ x. refl) d
call-DistinctKeys (reobserves k) rows d =
    advance-DistinctKeys (has_key k) reobserving (λ r. r) rows (λ k x. refl) (λ x. refl) d
call-DistinctKeys (resolves k) rows d =
    advance-DistinctKeys (has_key k) resolved released rows (λ k x. refl) (λ x. refl) d
call-DistinctKeys (makes_actionable k) rows d = actionable-DistinctKeys k rows d

-- The primary key stays unique over any calls.
pub calls-DistinctKeys :
    (cs : List Call) (rows : Table) → DistinctKeys rows → DistinctKeys (calls cs rows)
unfolding calls
calls-DistinctKeys [] rows d = d
calls-DistinctKeys (c ∷ cs) rows d =
    calls-DistinctKeys cs (call c rows) (call-DistinctKeys c rows d)

any-find :
    (k : Key) (incident_id : String) (rows : Table) {r : IncidentRecord}
    → find (has_key k) rows ≡ some r
    → any (λ (x : IncidentRecord). has_key k x || x.incident_id == incident_id) rows ≡ true
any-find k i [] h = cc
any-find k i (x ∷ xs) h = elim (Bool-cases (has_key k x)) [
  | inl e ↦ rw e refl
  | inr e ↦ rw e (ground (arith, any-find k i xs (rw e at h)))
]

find_appended :
    (k : Key) (incident_id : String) (x : IncidentRecord) (rows : Table)
    → has_key k x ≡ true
    → any (λ (r : IncidentRecord). has_key k r || r.incident_id == incident_id) rows ≡ false
    → find (has_key k) (rows ++ x ∷ []) ≡ some x
find_appended k i x [] h n = rw h refl
find_appended k i x (r ∷ rs) h n = elim (Bool-cases (has_key k r)) [
  | inl e ↦ absurd (cc (rw e at n))
  | inr e ↦ rw e (find_appended k i x rs h (ground (arith, n)))
]

-- An incident is claimed once: after a claim succeeded, and whatever is called in between, a claim of
-- the same subject and reason is answered by False, with any incident id, and changes nothing.
pub claimed_once :
    (k : Key) (incident_id other : String) (now later : ℕ) (between : List Call) (rows : Table)
    {after : Table}
    → try_claim_incident k incident_id now rows ≡ (true, after)
    → try_claim_incident k other later (calls between after) ≡ (false, calls between after)
unfolding try_claim_incident get_active_incident
claimed_once k incident_id other now later between rows {after} h =
    elim (Bool-cases (any (λ r. has_key k r || r.incident_id == incident_id) rows)) [
      | inl e ↦ absurd (cc (rw e at h))
      | inr e ↦
          let w : rows ++ new_incident k incident_id now ∷ [] ≡ after = ap (λ q. q.1) (rw e at h) in
          let own : has_key k (new_incident k incident_id now) ≡ true =
            rw (eq_refl k.subject, eq_refl k.reason) refl in
          let g : find (has_key k) after ≡ some (new_incident k incident_id now) =
            rw (← w) (find_appended k incident_id (new_incident k incident_id now) rows own e) in
          let (r, found, _) = calls-follow k between after g in
          rw (any-find k other (calls between after) found) refl
    ]
