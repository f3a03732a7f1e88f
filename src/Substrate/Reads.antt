-- ===== src/Substrate/Reads.antt =====
-- What the repository of src/storage/postgres_substrate.py reads of an observation that it saved.
use financial_control_engine.Base.{
  ◌==◌, ◌≡◌, refl, false, List, [], ◌∷◌, any, find, find-last, none, some, ok, inl, inr, Bool-cases,
  arith, ok_injective, eq_refl,
}
use financial_control_engine.Core.Models.{Observation, initial_version}
use financial_control_engine.Substrate.Rows.{ObservationRow, from_observation, observation_returns}
use financial_control_engine.Substrate.Observations.{
  same_version, violates, upsert, save_observation, get_observation,
}

fresh_id :
    (x : ObservationRow) (rows : List ObservationRow)
    → any (violates x) rows ≡ false
    → find (λ (r : ObservationRow). r.observation_id == x.observation_id) rows ≡ none
fresh_id x [] h = refl
fresh_id x (r ∷ rows) h = elim (Bool-cases (r.observation_id == x.observation_id)) [
  | inl e ↦ absurd (cc (rw e at h))
  | inr e ↦ rw e (fresh_id x rows (ground (arith, h)))
]

-- An observation that was saved as the first of its version is read again under its id with every field but
-- its events, which are lost; a version that was not given is the empty one.
pub saved_then_read :
    (o : Observation) (rows after : List ObservationRow)
    → find (same_version (from_observation o)) rows ≡ none
    → save_observation o rows ≡ ok after
    → get_observation o.observation_id after
      ≡ some (record o { events = []; provider_version = initial_version o.provider_version })
unfolding save_observation upsert get_observation from_observation
saved_then_read o rows after first h =
    let x = from_observation o in
    elim (Bool-cases (any (violates x) rows)) [
      | inl e ↦ absurd (cc (rw (first, e) at h))
      | inr e ↦
          rw
            (
              ok_injective (rw (first, e) at h),
              find-last (λ (r : ObservationRow). r.observation_id == o.observation_id) rows x
                  (fresh_id x rows e) (eq_refl o.observation_id),
            )
            (rw (observation_returns o) refl)
    ]
