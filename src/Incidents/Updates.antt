-- ===== src/Incidents/Updates.antt =====
-- `update_incident_state_occ` of src/storage/postgres_substrate.py: an update that succeeds only at the
-- version that was read.
use financial_control_engine.Base.{
  ℕ, ◌+◌, ◌≡◌, refl, ◌∙◌, true, false, [], ◌∷◌, find, any, some, if◌then◌else◌, arith, inl, inr,
  Bool-cases, some_injective, All, nat_eq, find-some,
}
use financial_control_engine.Lifecycle.{IncidentState}
use financial_control_engine.Incidents.Records.{
  IncidentRecord, Key, has_key, key_of, DistinctKeys, has_key-eq,
}
use financial_control_engine.Incidents.Repository.{
  Table, get_active_incident, at_version, occ_rows, update_incident_state_occ,
}

abbrev pub swapped : ℕ → IncidentState → IncidentRecord → IncidentRecord
swapped v s r = if nat_eq r.version v then record r { state = s; version = v + 1 } else r

any_apart :
    (k : Key) (v : ℕ) (r : IncidentRecord) (l : Table)
    → has_key k r ≡ true
    → All (λ (x : IncidentRecord). has_key (key_of r) x ≡ false) l
    → any (at_version k v) l ≡ false
any_apart k v r [] h d = refl
any_apart k v r (x ∷ xs) h d = rw (has_key-eq k r x h ∙ d.0) (any_apart k v r xs h d.1)

any_at_version :
    (k : Key) (v : ℕ) (l : Table) {r : IncidentRecord}
    → DistinctKeys l
    → find (has_key k) l ≡ some r
    → any (at_version k v) l ≡ nat_eq r.version v
any_at_version k v [] d h = cc
any_at_version k v (x ∷ xs) {r} d h = elim (Bool-cases (has_key k x)) [
  | inl e ↦
      let s : r ≡ x = some_injective (rw e at h) in
      rw (e, s, any_apart k v x xs e d.0) (ground arith)
  | inr e ↦ rw e (any_at_version k v xs d.1 (rw e at h))
]

has_key-occ :
    (j k : Key) (v : ℕ) (s : IncidentState) (x : IncidentRecord)
    → has_key j (if at_version k v x then record x { state = s; version = v + 1 } else x)
      ≡ has_key j x
has_key-occ j k v s x = elim (Bool-cases (at_version k v x)) [
  | inl e ↦ rw e refl
  | inr e ↦ rw e refl
]

find-occ :
    (j k : Key) (v : ℕ) (s : IncidentState) (l : Table) {r : IncidentRecord}
    → find (has_key j) l ≡ some r
    → find (has_key j) (occ_rows k v s l)
      ≡ some (if at_version k v r then record r { state = s; version = v + 1 } else r)
unfolding occ_rows
find-occ j k v s [] h = cc
find-occ j k v s (x ∷ xs) {r} h = elim (Bool-cases (has_key j x)) [
  | inl e ↦ let t : r ≡ x = some_injective (rw e at h) in rw t (rw (has_key-occ j k v s x, e) refl)
  | inr e ↦ rw (has_key-occ j k v s x, e) (find-occ j k v s xs (rw e at h))
]

-- The update is a compare-and-swap: it succeeds exactly if the row of the incident is at the version
-- that was passed; the row then has the new state, whatever state it had, and the next version, and
-- otherwise it is unchanged. The row of no other incident changes.
pub occ_swaps :
    (k : Key) (v : ℕ) (s : IncidentState) (rows : Table) {r : IncidentRecord}
    → DistinctKeys rows
    → get_active_incident k rows ≡ some r
    → let (done, after) = update_incident_state_occ k v s rows in
      (done ≡ nat_eq r.version v)
      × (get_active_incident k after ≡ some (swapped v s r))
      × ((j : Key) (x : IncidentRecord)
          → get_active_incident j rows ≡ some x
          → has_key k x ≡ false
          → get_active_incident j after ≡ some x)
unfolding update_incident_state_occ get_active_incident
occ_swaps k v s rows {r} d h = (
  any_at_version k v rows d h,
  find-occ k k v s rows h ∙ (rw (find-some (has_key k) rows r h) refl),
  (λ j x f n. find-occ j k v s rows f ∙ (rw n refl)),
)
