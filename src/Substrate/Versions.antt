-- ===== src/Substrate/Versions.antt =====
-- What a second upsert of one version and one time of observation does to the rows of `v2_observations`
-- (src/storage/postgres_substrate.py).
use financial_control_engine.Base.{
  String, ◌≡◌, refl, sym, ◌∙◌, true, false, List, [], ◌∷◌, any, find, find-last, some, ok, inl, inr,
  Bool-cases, Option-cases, some_injective, ok_injective, write_first, arith, eq_refl,
}
use financial_control_engine.Base.Int.{ℤ, ltb_ℤ}
use financial_control_engine.Core.Models.{Observation}
use financial_control_engine.Matching.Grouping.{to_utc}
use financial_control_engine.Substrate.Rows.{ObservationRow, from_observation}
use financial_control_engine.Substrate.Observations.{
  same_version, violates, duplicates, refreshed, is_newer, upsert, save_observation,
}

not_newer : (t : ℤ) → ltb_ℤ t t ≡ false
not_newer t = ground arith

-- A row of the version that is not older than `x`.
pub record Holds (x : ObservationRow) (rows : List ObservationRow) : Type 0 where
  pub row : ObservationRow
  pub found : find (same_version x) rows ≡ some row
  pub not_older : ltb_ℤ (to_utc row.observed_at) (to_utc x.observed_at) ≡ false

find-refreshed :
    (x : ObservationRow) (rows : List ObservationRow) {r : ObservationRow}
    → find (same_version x) rows ≡ some r
    → find (same_version x) (write_first (same_version x) (refreshed x) rows) ≡ some (refreshed x r)
find-refreshed x [] h = cc
find-refreshed x (y ∷ ys) {r} h = elim (Bool-cases (same_version x y)) [
  | inl e ↦ let same : r ≡ y = some_injective (rw e at h) in rw (e, e, same) refl
  | inr e ↦ rw (e, e) (find-refreshed x ys (rw e at h))
]

pub upsert-Holds :
    (x : ObservationRow) (rows after : List ObservationRow)
    → same_version x x ≡ true
    → upsert x rows ≡ ok after
    → Holds x after
unfolding upsert
upsert-Holds x rows after itself h = elim (Option-cases (find (same_version x) rows)) [
  | inl n ↦ elim (Bool-cases (any (violates x) rows)) [
    | inl e ↦ absurd (cc (rw (n, e) at h))
    | inr e ↦ rw (ok_injective (rw (n, e) at h)) (record {
      row = x;
      found = find-last (same_version x) rows x n itself;
      not_older = not_newer (to_utc x.observed_at);
    })
  ]
  | inr (r, n) ↦ elim (Bool-cases (is_newer x r)) [
    | inr e ↦ rw (ok_injective (rw (n, e) at h)) (record { row = r; found = n; not_older = e })
    | inl e ↦ elim (Bool-cases (any (duplicates x) rows)) [
      | inl d ↦ absurd (cc (rw (n, e, d) at h))
      | inr d ↦ rw (ok_injective (rw (n, e, d) at h)) (record {
        row = refreshed x r;
        found = find-refreshed x rows n;
        not_older = not_newer (to_utc x.observed_at);
      })
    ]
  ]
]

-- Rows of one version and one time of observation.
pub record Alike (x y : ObservationRow) : Type 0 where
  pub provider : y.provider ≡ x.provider
  pub reference : y.provider_reference ≡ x.provider_reference
  pub kind : y.observation_type ≡ x.observation_type
  pub version : y.provider_version ≡ x.provider_version
  pub time : to_utc y.observed_at ≡ to_utc x.observed_at

pub Holds-unchanged :
    (x y : ObservationRow) (rows : List ObservationRow)
    → Alike x y
    → Holds x rows
    → upsert y rows ≡ ok rows
unfolding upsert
Holds-unchanged x y rows a h =
    let there : find (same_version y) rows ≡ some h.row =
      rw (a.provider, a.reference, a.kind, a.version) h.found in
    rw (there, a.time, h.not_older) refl

pub Alike-trans : {x y z : ObservationRow} → Alike x y → Alike y z → Alike x z
Alike-trans a b = record {
  provider = b.provider ∙ a.provider;
  reference = b.reference ∙ a.reference;
  kind = b.kind ∙ a.kind;
  version = b.version ∙ a.version;
  time = b.time ∙ a.time;
}

pub Alike-sym : {x y : ObservationRow} → Alike x y → Alike y x
Alike-sym a = record {
  provider = sym a.provider;
  reference = sym a.reference;
  kind = sym a.kind;
  version = sym a.version;
  time = sym a.time;
}

Alike-itself : (x : ObservationRow) → Alike x x
Alike-itself x = record {
  provider = refl;
  reference = refl;
  kind = refl;
  version = refl;
  time = refl;
}

-- Saving an observation again, whose version is set as the class sets it, changes nothing.
pub save_observation-again :
    (o : Observation) (rows after : List ObservationRow) {v : String}
    → o.provider_version ≡ some v
    → save_observation o rows ≡ ok after
    → save_observation o after ≡ ok after
unfolding save_observation from_observation
save_observation-again o rows after {v} named h =
    let x = from_observation o in
    let itself : same_version x x ≡ true =
      rw
        (
          eq_refl o.provider,
          eq_refl o.provider_reference,
          eq_refl o.observation_type,
          named,
          eq_refl v,
        )
        refl in
    Holds-unchanged x x after (Alike-itself x) (upsert-Holds x rows after itself h)
