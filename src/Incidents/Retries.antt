-- ===== src/Incidents/Retries.antt =====
-- `acquire_matured_retries` of src/storage/postgres_substrate.py. PostgreSQL puts rows without
-- `next_retry_at` behind the others; rows of the same time are taken in the order of the table.
use mathlib.Core.List.{Memᴰ}
use financial_control_engine.Base.{
  ℕ, ◌+◌, ◌≤◌, String, ◌==◌, ◌≡◌, refl, ◌∙◌, Bool, true, false, ◌&&◌, List, [], ◌∷◌, any, keep, map,
  find, Option, none, some, ok, if◌then◌else◌, inl, inr, All, Bool-cases, arith, leb, find-some,
  some_injective, eq_refl,
}
use financial_control_engine.Base.Sorting.{
  sort_by, take, All-take, All-mapped, All-sort_by, All-keep, kept_pass, All-map, All-Memᴰ,
  member_all,
}
use financial_control_engine.Lifecycle.{investigating, state_eq}
use financial_control_engine.Incidents.Records.{IncidentRecord, Key, has_key, key_of}
use financial_control_engine.Incidents.Repository.{Table, is_before, seconds, acquire_lease}
use financial_control_engine.Incidents.Leases.{is_leasable, acquire_lease_found}

-- `next_retry_at IS NULL or next_retry_at <= now`
abbrev is_due : Option ℕ → ℕ → Bool
is_due none now = true
is_due (some t) now = leb t now

-- The filter of the query.
abbrev pub is_matured : ℕ → IncidentRecord → Bool
is_matured now r =
    state_eq r.state investigating && is_before r.lease_expires_at now && is_due r.next_retry_at now

-- `ORDER BY next_retry_at ASC`
abbrev retries_first : Option ℕ → Option ℕ → Bool
retries_first _ none = true
retries_first none (some t) = false
retries_first (some s) (some t) = leb s t

abbrev earlier : IncidentRecord → IncidentRecord → Bool
earlier a b = retries_first a.next_retry_at b.next_retry_at

abbrev pub matured : ℕ → ℕ → Table → List IncidentRecord
matured limit now rows = take limit (sort_by earlier (keep (is_matured now) rows))

abbrev pub granted : String → ℕ → IncidentRecord → IncidentRecord
granted worker expires r = record r { lease_owner = some worker; lease_expires_at = some expires }

-- `lease_owner` and `lease_expires_at` are assigned on the rows that were selected.
abbrev pub grant_rows : List IncidentRecord → String → ℕ → IncidentRecord → IncidentRecord
grant_rows chosen worker expires r =
    if any (λ (x : IncidentRecord). has_key (key_of x) r) chosen
    then granted worker expires r
    else r

unfoldable pub acquire_matured_retries : String → ℕ → ℕ → ℕ → Table → List IncidentRecord × Table
acquire_matured_retries worker ttl_seconds limit now rows =
    let chosen = matured limit now rows in
    let expires = now + seconds ttl_seconds in
    (map (granted worker expires) chosen, map (grant_rows chosen worker expires) rows)

own_key : (r : IncidentRecord) → has_key (key_of r) r ≡ true
own_key r = rw (eq_refl r.active_subject, eq_refl r.discrepancy_reason) refl

found_member :
    (r : IncidentRecord) (l : Table)
    → Memᴰ r l
    → (x : IncidentRecord) × (find (has_key (key_of r)) l ≡ some x)
found_member r [] m = elim m [ ]
found_member r (y ∷ ys) (Memᴰ.head e) = (y, rw (← e, own_key r) refl)
found_member r (y ∷ ys) (Memᴰ.tail m) = elim (Bool-cases (has_key (key_of r) y)) [
  | inl e ↦ (y, rw e refl)
  | inr e ↦ let (x, h) = found_member r ys m in (x, rw e h)
]

chosen_any :
    (r x : IncidentRecord) (chosen : List IncidentRecord)
    → Memᴰ r chosen
    → has_key (key_of r) x ≡ true
    → any (λ (y : IncidentRecord). has_key (key_of y) x) chosen ≡ true
chosen_any r x [] m h = elim m [ ]
chosen_any r x (y ∷ ys) (Memᴰ.head e) h = rw (← e, h) refl
chosen_any r x (y ∷ ys) (Memᴰ.tail m) h = ground (arith, chosen_any r x ys m h)

has_key-grant_rows :
    (k : Key) (chosen : List IncidentRecord) (worker : String) (expires : ℕ) (r : IncidentRecord)
    → has_key k (grant_rows chosen worker expires r) ≡ has_key k r
has_key-grant_rows k chosen worker expires r =
    elim (Bool-cases (any (λ (x : IncidentRecord). has_key (key_of x) r) chosen)) [
      | inl e ↦ rw e refl
      | inr e ↦ rw e refl
    ]

find-map :
    (p : IncidentRecord → Bool) (f : IncidentRecord → IncidentRecord) (l : Table)
    {x : IncidentRecord}
    → ((y : IncidentRecord) → p (f y) ≡ p y)
    → find p l ≡ some x
    → find p (map f l) ≡ some (f x)
find-map p f [] keep h = cc
find-map p f (y ∷ ys) {x} keep h = elim (Bool-cases (p y)) [
  | inl e ↦ let s : x ≡ y = some_injective (rw e at h) in rw (keep y, e, s) refl
  | inr e ↦ rw (keep y, e) (find-map p f ys keep (rw e at h))
]

matured_state : (r : IncidentRecord) (now : ℕ) → is_matured now r ≡ true → r.state ≡ investigating
unfolding state_eq
matured_state r now h = ground arith

module _ (worker : String) (ttl limit now : ℕ) (rows : Table) where
  -- What holds of each incident that was claimed, with the table after the call.
  abbrev pub IsClaimed : IncidentRecord → Type 0
  IsClaimed r =
      (r.state ≡ investigating)
      × (is_due r.next_retry_at now ≡ true)
      × ((other : String) (ttl' now' : ℕ)
          → (worker == other) ≡ false
          → now' ≤ now + seconds ttl
          → let after = (acquire_matured_retries worker ttl limit now rows).1 in
            acquire_lease (key_of r) other ttl' now' after ≡ ok (none, after))

  granted-IsClaimed :
      (r : IncidentRecord)
      → Memᴰ r rows
      → Memᴰ r (matured limit now rows)
      → is_matured now r ≡ true
      → IsClaimed (granted worker (now + seconds ttl) r)
  unfolding acquire_matured_retries
  granted-IsClaimed r listed chosen ready = (
    matured_state r now ready,
    ground arith,
    (λ other ttl' now' apart t.
        let (x, found) = found_member r rows listed in
        let f = grant_rows (matured limit now rows) worker (now + seconds ttl) in
        let g =
          find-map (has_key (key_of r)) f rows
            (λ y.
              has_key-grant_rows (key_of r) (matured limit now rows) worker (now + seconds ttl) y)
            found in
        let hit =
          chosen_any r x (matured limit now rows) chosen
            (find-some (has_key (key_of r)) rows x found) in
        let held : is_leasable other now' (f x) ≡ false = rw hit (ground (arith, apart)) in
        acquire_lease_found (key_of r) other ttl' now' (map f rows) g ∙ (rw held refl)),
  )

  -- Each incident that a call of `acquire_matured_retries` claims was INVESTIGATING and due, and while
  -- the claim lasts a call of `acquire_lease` by another worker gets nothing and changes nothing.
  pub acquire_matured_retries-IsClaimed :
      All IsClaimed (acquire_matured_retries worker ttl limit now rows).0
  unfolding acquire_matured_retries
  acquire_matured_retries-IsClaimed =
      let chosen = matured limit now rows in
      let listed : All (λ r. Memᴰ r rows) chosen =
        All-take (λ r. Memᴰ r rows) limit (sort_by earlier (keep (is_matured now) rows))
          (All-sort_by earlier (λ r. Memᴰ r rows) (keep (is_matured now) rows)
            (All-keep (is_matured now) (λ r. Memᴰ r rows) rows (All-Memᴰ rows))) in
      let ready : All (λ r. is_matured now r ≡ true) chosen =
        All-take (λ r. is_matured now r ≡ true) limit (sort_by earlier (keep (is_matured now) rows))
          (All-sort_by earlier (λ r. is_matured now r ≡ true) (keep (is_matured now) rows)
            (kept_pass (is_matured now) rows)) in
      All-mapped IsClaimed (granted worker (now + seconds ttl)) chosen (
        All-map
          (λ r m.
            granted-IsClaimed r (member_all (λ r. Memᴰ r rows) chosen m listed) m
              (member_all (λ r. is_matured now r ≡ true) chosen m ready))
          chosen (All-Memᴰ chosen))
