-- ===== src/Ingestion/Unheard.antt =====
-- The event that scripts/worker_main.py publishes for an observation that updated a row
-- (src/storage/postgres_ingestion.py), and its handler in src/engine/worker.py.
use financial_control_engine.Base.{
  String, ◌==◌, is_empty, ◌≡◌, refl, Bool, false, List, [], ◌∷◌, any, find, none, some, ok, inl,
  inr, Bool-cases, ok_injective, write_first,
}
use financial_control_engine.Core.Models.{Observation}
use financial_control_engine.Substrate.Rows.{ObservationRow, from_observation}
use financial_control_engine.Substrate.Observations.{
  same_version, duplicates, refreshed, is_newer, upsert, save_observation, get_observation,
}
use financial_control_engine.Worker.Runs.{World, next, pure, transact, ◌>>=◌}
use financial_control_engine.Worker.Services.{Services}
use financial_control_engine.Worker.Loop.{handle_observation_ingested}

find-unwritten :
    (id : String) (x : ObservationRow) (q : ObservationRow → Bool) (rows : List ObservationRow)
    → find (λ (r : ObservationRow). r.observation_id == id) rows ≡ none
    → find (λ (r : ObservationRow). r.observation_id == id) (write_first q (refreshed x) rows)
      ≡ none
find-unwritten id x q [] h = refl
find-unwritten id x q (r ∷ rows) h = elim (Bool-cases (r.observation_id == id)) [
  | inl k ↦ absurd (cc (rw k at h))
  | inr k ↦ elim (Bool-cases (q r)) [
    | inl e ↦ rw (e, k) (rw k at h)
    | inr e ↦ rw (e, k) (find-unwritten id x q rows (rw k at h))
  ]
]

update-unwritten :
    (id : String) (x : ObservationRow) (rows after : List ObservationRow) {r : ObservationRow}
    → find (same_version x) rows ≡ some r
    → find (λ (r : ObservationRow). r.observation_id == id) rows ≡ none
    → upsert x rows ≡ ok after
    → find (λ (r : ObservationRow). r.observation_id == id) after ≡ none
unfolding upsert
update-unwritten id x rows after {r} f n h = elim (Bool-cases (is_newer x r)) [
  | inr e ↦ rw (ok_injective (rw (f, e) at h)) n
  | inl e ↦ elim (Bool-cases (any (duplicates x) rows)) [
    | inl d ↦ absurd (cc (rw (f, e, d) at h))
    | inr d ↦ rw (ok_injective (rw (f, e, d) at h)) (find-unwritten id x (same_version x) rows n)
  ]
]

-- If an observation of a new id updates the row of its version, the handler of the event that carries the
-- id does nothing, whatever open expectation the new status concerns.
pub update_unheard :
    (s : Services) (w : World) (o : Observation) (rows : List ObservationRow) {r : ObservationRow}
    → find (same_version (from_observation o)) rows ≡ some r
    → find (λ (r : ObservationRow). r.observation_id == o.observation_id) rows ≡ none
    → is_empty o.observation_id ≡ false
    → save_observation o rows ≡ ok w.observations
    → (handle_observation_ingested s (some o.observation_id) w).1 ≡ next w
unfolding save_observation handle_observation_ingested get_observation transact ◌>>=◌ pure
update_unheard s w o rows {r} f n set h =
    let gone = update-unwritten o.observation_id (from_observation o) rows w.observations f n h in
    elim (Bool-cases (s.outage w.tick)) [
      | inl e ↦ rw (set, e) refl
      | inr e ↦ rw (set, e, gone) refl
    ]
