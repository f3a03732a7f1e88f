-- ===== src/Substrate/Upserts.antt =====
-- What an upsert of `PostgresObservationRepository.save` (src/storage/postgres_substrate.py) does to the
-- rows of `v2_observations`.
use financial_control_engine.Base.{
  ◌≡◌, refl, sym, ◌∙◌, true, List, [], ◌∷◌, any, find, find-append, some, ok, inl, inr, Bool-cases,
  Option-cases, some_injective, ok_injective, arith,
}
use financial_control_engine.Base.Int.{ℤ, ltb_ℤ, ◌≤ℤ◌}
use financial_control_engine.Core.Models.{Observation}
use financial_control_engine.Matching.Grouping.{to_utc}
use financial_control_engine.Incidents.Moves.{find-write_first}
use financial_control_engine.Substrate.Rows.{ObservationRow, from_observation}
use financial_control_engine.Substrate.Observations.{
  same_version, violates, duplicates, refreshed, is_newer, upsert, save_observation,
}

-- What a later row of the same version keeps of an earlier one.
pub record Succeeds (old new : ObservationRow) : Type 0 where
  pub same_id : new.observation_id ≡ old.observation_id
  pub same_amount : new.observed_amount ≡ old.observed_amount
  pub not_older : to_utc old.observed_at ≤ℤ to_utc new.observed_at

newer_ordered : (a b : ℤ) → ltb_ℤ a b ≡ true → a ≤ℤ b
newer_ordered a b h = ground arith

itself_ordered : (a : ℤ) → a ≤ℤ a
itself_ordered a = ground arith

Succeeds-itself : (r : ObservationRow) → Succeeds r r
Succeeds-itself r = record {
  same_id = refl;
  same_amount = refl;
  not_older = itself_ordered (to_utc r.observed_at);
}

-- A row that was stored keeps its id and its amount, and its time of observation never goes back,
-- whatever observations are saved.
pub save_observation-Succeeds :
    (o : Observation) (y : ObservationRow) (rows after : List ObservationRow) {r : ObservationRow}
    → find (same_version y) rows ≡ some r
    → save_observation o rows ≡ ok after
    → (x : ObservationRow) × (find (same_version y) after ≡ some x) × Succeeds r x
unfolding save_observation upsert
save_observation-Succeeds o y rows after {r} f h =
    let x = from_observation o in
    elim (Option-cases (find (same_version x) rows)) [
      | inl n ↦ elim (Bool-cases (any (violates x) rows)) [
        | inl e ↦ absurd (cc (rw (n, e) at h))
        | inr e ↦
            rw (ok_injective (rw (n, e) at h))
              (r, find-append (same_version y) rows (x ∷ []) f, Succeeds-itself r)
      ]
      | inr (z, n) ↦ elim (Bool-cases (is_newer x z)) [
        | inr e ↦ rw (ok_injective (rw (n, e) at h)) (r, f, Succeeds-itself r)
        | inl e ↦ elim (Bool-cases (any (duplicates x) rows)) [
          | inl d ↦ absurd (cc (rw (n, e, d) at h))
          | inr d ↦
              rw (ok_injective (rw (n, e, d) at h))
                (elim (find-write_first (same_version x) (same_version y) (refreshed x) rows
                  (λ w. refl) f) [
                    | inl same ↦ (r, same, Succeeds-itself r)
                    | inr (written, first) ↦
                        let same : r ≡ z = some_injective (sym n ∙ first) in
                        (
                          refreshed x r,
                          written,
                          record {
                            same_id = refl;
                            same_amount = refl;
                            not_older =
                                newer_ordered (to_utc r.observed_at) (to_utc x.observed_at)
                                  (rw same e);
                          },
                        )
                  ])
        ]
      ]
    ]
