-- ===== src/Incidents/Leases.antt =====
-- The leases of `PostgresActiveIncidentRepository` (src/storage/postgres_substrate.py).
use financial_control_engine.Base.{
  ℕ, ◌+◌, ◌≤◌, String, ◌==◌, ◌≡◌, ◌↔◌, inl, inr, refl, sym, ap, ◌∙◌, Bool, true, false, not, ◌&&◌,
  ◌||◌, List, [], ◌∷◌, find, write_first, Option, none, some, ok, if◌then◌else◌, arith, Bool-cases,
  Option-cases, some_injective, ok_injective, is_some,
}
use financial_control_engine.Lifecycle.{IncidentState, state_eq, assert_valid_transition}
use financial_control_engine.Incidents.Records.{IncidentRecord, Key, has_key}
use financial_control_engine.Incidents.Repository.{
  Table, is_closed, is_after, seconds, leased_state, leased, is_free, acquire_lease,
  get_active_incident,
}

-- The transition that a lease makes is one of the state machine's.
pub leased_state-accepted : (s : IncidentState) → assert_valid_transition s (leased_state s) ≡ ok tt
unfolding assert_valid_transition leased_state
leased_state-accepted s = ground arith

-- The incident is open, its retry is due and its lease can be taken.
abbrev pub is_leasable : String → ℕ → IncidentRecord → Bool
is_leasable worker now r =
    not (is_closed r.state || is_after r.next_retry_at now) && is_free worker now r

abbrev pub lease_result :
    Key → String → ℕ → ℕ → IncidentRecord → Table → Option IncidentRecord × Table
lease_result k worker ttl now r rows =
    if is_leasable worker now r
    then (
      some (leased worker (now + seconds ttl) r),
      write_first (has_key k) (leased worker (now + seconds ttl)) rows,
    )
    else (none, rows)

pub acquire_lease_found :
    (k : Key) (worker : String) (ttl now : ℕ) (rows : Table) {r : IncidentRecord}
    → find (has_key k) rows ≡ some r
    → acquire_lease k worker ttl now rows ≡ ok (lease_result k worker ttl now r rows)
unfolding acquire_lease
acquire_lease_found k worker ttl now rows {r} h =
    elim (Bool-cases (is_closed r.state || is_after r.next_retry_at now)) [
      | inl e ↦ rw (h, e) refl
      | inr e ↦ elim (Bool-cases (state_eq r.state (leased_state r.state))) [
        | inl g ↦ elim (Bool-cases (is_free worker now r)) [
          | inl i ↦ rw (h, e, g, i) refl
          | inr i ↦ rw (h, e, g, i) refl
        ]
        | inr g ↦ elim (Bool-cases (is_free worker now r)) [
          | inl i ↦ rw (h, e, g, leased_state-accepted r.state, i) refl
          | inr i ↦ rw (h, e, g, leased_state-accepted r.state, i) refl
        ]
      ]
    ]

pub acquire_lease_missing :
    (k : Key) (worker : String) (ttl now : ℕ) (rows : Table)
    → find (has_key k) rows ≡ none
    → acquire_lease k worker ttl now rows ≡ ok (none, rows)
unfolding acquire_lease
acquire_lease_missing k worker ttl now rows h = rw h refl

pub find_written :
    {A : Type 0} (p : A → Bool) (f : A → A) (l : List A) {r : A}
    → ((x : A) → p (f x) ≡ p x)
    → find p l ≡ some r
    → find p (write_first p f l) ≡ some (f r)
find_written p f [] keep h = cc
find_written p f (x ∷ xs) {r} keep h = elim (Bool-cases (p x)) [
  | inl e ↦ let s : r ≡ x = some_injective (rw e at h) in rw (e, keep x, e, s) refl
  | inr e ↦ rw (e, e) (find_written p f xs keep (rw e at h))
]

-- A lease that was granted: the row as it was and as it is.
pub record Granted (k : Key) (worker : String) (ttl now : ℕ) (rows after : Table)
    (got : IncidentRecord) : Type 0 where
  pub row : IncidentRecord
  pub was : find (has_key k) rows ≡ some row
  pub could : is_leasable worker now row ≡ true
  pub got_is : got ≡ leased worker (now + seconds ttl) row
  pub after_is : after ≡ write_first (has_key k) (leased worker (now + seconds ttl)) rows
  pub found_after : find (has_key k) after ≡ some got

pub acquire_lease-Granted :
    (k : Key) (worker : String) (ttl now : ℕ) (rows : Table) {got : IncidentRecord} {after : Table}
    → acquire_lease k worker ttl now rows ≡ ok (some got, after)
    → Granted k worker ttl now rows after got
acquire_lease-Granted k worker ttl now rows {got} {after} h =
    elim (Option-cases (find (has_key k) rows)) [
      | inl e ↦ absurd (cc (acquire_lease_missing k worker ttl now rows e, h))
      | inr (r, e) ↦
          let a = sym (acquire_lease_found k worker ttl now rows e) ∙ h in
          elim (Bool-cases (is_leasable worker now r)) [
            | inr n ↦ absurd (cc (rw n at a))
            | inl y ↦
                let p = ok_injective (rw y at a) in
                let g : got ≡ leased worker (now + seconds ttl) r =
                  some_injective (sym (ap (λ q. q.0) p)) in
                let w : after ≡ write_first (has_key k) (leased worker (now + seconds ttl)) rows =
                  ap (λ q. q.1) p in
                record {
                  row = r;
                  was = e;
                  could = y;
                  got_is = g;
                  after_is = w;
                  found_after =
                      rw (w, g)
                        (find_written (has_key k) (leased worker (now + seconds ttl)) rows
                          (λ x. refl) e);
                }
          ]
    ]

-- A call of `acquire_lease` never raises, and it grants the lease exactly if the incident is in the
-- table, not closed, not waiting for a retry, and its lease is absent, expired or the worker's own.
-- After a grant the row of the incident is in its leased state, owned by the worker until the time
-- to live has passed.
pub acquire_lease_grants :
    (k : Key) (worker : String) (ttl now : ℕ) (rows : Table)
    → (got : Option IncidentRecord) × ((after : Table) × (acquire_lease k worker ttl now rows
          ≡ ok (got, after))
        × ((is_some got ≡ true) ↔ (
            (r : IncidentRecord) × (get_active_incident k rows ≡ some r)
            × (is_leasable worker now r ≡ true)
            × (get_active_incident k after ≡ some (leased worker (now + seconds ttl) r)))))
unfolding get_active_incident
acquire_lease_grants k worker ttl now rows = elim (Option-cases (find (has_key k) rows)) [
  | inl e ↦ (
    none,
    (rows, acquire_lease_missing k worker ttl now rows e, ((λ h. cc), (λ (r, f, y, _). cc (e, f)))),
  )
  | inr (r, e) ↦ elim (Bool-cases (is_leasable worker now r)) [
    | inl y ↦ (
      some (leased worker (now + seconds ttl) r),
      (
        write_first (has_key k) (leased worker (now + seconds ttl)) rows,
        acquire_lease_found k worker ttl now rows e ∙ (rw y refl),
        (
          (λ _. (
            r,
            e,
            y,
            find_written (has_key k) (leased worker (now + seconds ttl)) rows (λ x. refl) e,
          )),
          (λ _. refl),
        ),
      ),
    )
    | inr n ↦ (
      none,
      (
        rows,
        acquire_lease_found k worker ttl now rows e ∙ (rw n refl),
        (
          (λ h. cc),
          (λ (x, f, y, _). let s : x ≡ r = some_injective (sym e ∙ f) in cc (n, rw s at y)),
        ),
      ),
    )
  ]
]

-- While a granted lease lasts, a call of any other worker gets no lease and changes nothing.
pub lease_excludes :
    (k : Key) (worker other : String) (ttl now ttl' now' : ℕ) (rows : Table) {got : IncidentRecord}
    {after : Table}
    → acquire_lease k worker ttl now rows ≡ ok (some got, after)
    → (worker == other) ≡ false
    → now' ≤ now + seconds ttl
    → acquire_lease k other ttl' now' after ≡ ok (none, after)
lease_excludes k worker other ttl now ttl' now' rows {got} {after} h n t =
    let g = acquire_lease-Granted k worker ttl now rows h in
    let held : is_leasable other now' got ≡ false = rw (g.got_is) (ground (arith, n)) in
    acquire_lease_found k other ttl' now' after g.found_after ∙ (rw held refl)
