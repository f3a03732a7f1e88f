-- ===== src/Worker/Closing.antt =====
-- When a run of `_process_investigation` (src/engine/worker.py) closes its incident as RESOLVED.
use financial_control_engine.Base.{
  ℕ, ◌+◌, ◌≡◌, refl, ap, Bool, true, false, List, [], ◌∷◌, some, inl, inr, ◌⊎◌, find, Bool-cases,
  Result-cases, Result, ok, err, some_injective, ok_injective,
}
use financial_control_engine.Lifecycle.{
  IncidentState, TransitionError, resolved, actionable, actuation_pending, state_eq,
  assert_valid_transition,
}
use financial_control_engine.Governance.Gate.{claimable, claim_rows}
use financial_control_engine.Incidents.Records.{IncidentRecord, Key, has_key}
use financial_control_engine.Incidents.Repository.{
  Table, commit_actionable, resolve_reobserved, terminate_incident, is_investigated, released,
}
use financial_control_engine.Incidents.Moves.{find-write_first}
use financial_control_engine.Substrate.Rows.{EvidenceRow, ObservationRow}
use financial_control_engine.Substrate.Observations.{IntegrityError}
use financial_control_engine.Worker.Runs.{World}
use financial_control_engine.Worker.Services.{Services}
use financial_control_engine.Worker.Writes.{moved, persisted}
use financial_control_engine.Worker.Process.{Task, task_key}
use financial_control_engine.Worker.Walk.{
  is_resolved, Tracked, Unresolving, Grounds, advance-Tracked,
}

pub commit-Unresolving : (k : Key) → Unresolving k (commit_actionable k)
unfolding commit_actionable state_eq
commit-Unresolving k rows after done r e h = elim (Bool-cases (is_investigated r.state)) [
  | inr n ↦ rw (ap (λ (z : Bool × Table). z.1) (ok_injective (rw (h, n) at e))) (r, h, inl refl)
  | inl y ↦ elim (Result-cases (assert_valid_transition r.state actionable)) [
    | inr (_, a) ↦ absurd (cc (rw (h, y, a) at e))
    | inl (_, a) ↦
        let g = λ (x : IncidentRecord). record x { state = actionable } in
        rw (ap (λ (z : Bool × Table). z.1) (ok_injective (rw (h, y, a) at e)))
          (elim (find-write_first (has_key k) (has_key k) g rows (λ x. refl) h) [
            | inl same ↦ (r, same, inl refl)
            | inr (written, _) ↦ (g r, written, inr refl)
          ])
  ]
]

abbrev pub Any : IncidentState → Type 0
Any s = Unit

pub resolve-Tracked : (k : Key) → Tracked k Any (resolve_reobserved k)
unfolding resolve_reobserved
resolve-Tracked k = advance-Tracked k (has_key k) resolved released Any tt (λ x. refl) (λ x. refl)

pub terminate-Tracked : (k : Key) (s : IncidentState) → Tracked k Any (terminate_incident k s)
unfolding terminate_incident
terminate-Tracked k s = advance-Tracked k (has_key k) s released Any tt (λ x. refl) (λ x. refl)

-- The row that a claim leaves.
pub claimed_row :
    (k j : Key) (version : ℕ) (rows : Table) (r : IncidentRecord)
    → find (has_key k) rows ≡ some r
    → (x : IncidentRecord) × (find (has_key k) (claim_rows j version actuation_pending rows)
        ≡ some x)
      × ((x.state ≡ r.state) ⊎ (is_resolved x.state ≡ false))
unfolding claim_rows state_eq
claimed_row k j version [] r h = cc
claimed_row k j version (y ∷ ys) r h = elim (Bool-cases (has_key k y)) [
  | inl e ↦
      let same : r ≡ y = some_injective (rw e at h) in
      elim (Bool-cases (claimable j version y)) [
        | inl c ↦ (
          record y { state = actuation_pending; version = y.version + 1 },
          rw (claim_rows, c, e) refl,
          inr refl,
        )
        | inr c ↦ (y, rw (claim_rows, c, e) refl, inl (rw same refl))
      ]
  | inr e ↦
      let (x, found, s) = claimed_row k j version ys r (rw e at h) in
      elim (Bool-cases (claimable j version y)) [
        | inl c ↦ (x, rw (claim_rows, c, e) found, s)
        | inr c ↦ (x, rw (claim_rows, c, e) found, s)
      ]
]

-- A call on the rows, at a world.
pub moved_rows :
    (w : World) (x : Result TransitionError (Bool × Table)) {a : Bool} {after : World}
    → moved w x ≡ ok (a, after)
    → x ≡ ok (a, after.database.incidents)
moved_rows w (err e) h = cc
moved_rows w (ok (done, rows)) {a} {after} h =
    let x = ok_injective h in
    rw (ap (λ (z : Bool × World). z.0) x, ap (λ (z : Bool × World). z.1) x) refl

pub persisted_rows :
    (w : World) (evidence : List EvidenceRow) (o : Result IntegrityError (List ObservationRow))
    (x : Result TransitionError (Bool × Table)) {a : Bool} {after : World}
    → persisted w evidence o x ≡ ok (a, after)
    → x ≡ ok (a, after.database.incidents)
persisted_rows w evidence (err e) x h = cc
persisted_rows w evidence (ok rows) (err e) h = cc
persisted_rows w evidence (ok rows) (ok (done, moved)) {a} {after} h =
    let x = ok_injective h in
    rw (ap (λ (z : Bool × World). z.0) x, ap (λ (z : Bool × World). z.1) x) refl

module _ (s : Services) (t : Task) (start : World) where
  -- The incident is there, and not RESOLVED.
  abbrev pub Open : World → Type 0
  Open w =
      (r : IncidentRecord) × (find (has_key (task_key t)) w.database.incidents ≡ some r)
      × (is_resolved r.state ≡ false)

  -- The incident is there, and has been RESOLVED on grounds only.
  abbrev pub Justified : World → Type 0
  Justified w =
      (r : IncidentRecord) × (find (has_key (task_key t)) w.database.incidents ≡ some r)
      × (is_resolved r.state ≡ true → Grounds s t start)

  pub Open-Justified : (w : World) → Open w → Justified w
  Open-Justified w (r, h, n) = (r, h, (λ y. absurd (cc (y, n))))

  pub still-Open :
      (g : Table → Result TransitionError (Bool × Table)) (w after : World) (a : Bool)
      → Unresolving (task_key t) g
      → g w.database.incidents ≡ ok (a, after.database.incidents)
      → Open w
      → Open after
  still-Open g w after a u e (r, h, n) =
      let (x, found, c) = u w.database.incidents after.database.incidents a r e h in
      (x, found, elim c [ inl same ↦ rw same n | inr apart ↦ apart ])

  pub still-Justified :
      (g : Table → Result TransitionError (Bool × Table)) (w after : World) (a : Bool)
      → Unresolving (task_key t) g
      → g w.database.incidents ≡ ok (a, after.database.incidents)
      → Justified w
      → Justified after
  still-Justified g w after a u e (r, h, j) =
      let (x, found, c) = u w.database.incidents after.database.incidents a r e h in
      (x, found, (λ y. elim c [ inl same ↦ j (rw same at y) | inr apart ↦ absurd (cc (y, apart)) ]))

  -- With grounds the state does not matter.
  pub with-Grounds :
      (g : Table → Result TransitionError (Bool × Table)) (w after : World) (a : Bool)
      → Grounds s t start
      → Tracked (task_key t) Any g
      → g w.database.incidents ≡ ok (a, after.database.incidents)
      → Open w
      → Justified after
  with-Grounds g w after a grounds u e (r, h, n) =
      let (x, found, _) = u w.database.incidents after.database.incidents a r e h in
      (x, found, (λ y. grounds))
