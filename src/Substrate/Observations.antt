-- ===== src/Substrate/Observations.antt =====
-- `PostgresObservationRepository` and `PostgresEvidenceRepository` of
-- src/storage/postgres_substrate.py, over PostgreSQL.
use financial_control_engine.Base.{
  String, ◌==◌, is_empty, Bool, false, not, ◌&&◌, ◌||◌, List, [], ◌∷◌, ◌++◌, any, find, keep, map,
  Option, none, some, Result, ok, err, if◌then◌else◌, write_first,
}
use financial_control_engine.Base.Int.{ltb_ℤ}
use financial_control_engine.Core.Models.{CorrelationKeys, Evidence, Observation}
use financial_control_engine.Matching.Grouping.{to_utc}
use financial_control_engine.Substrate.Rows.{
  EvidenceRow, ObservationRow, from_observation, to_observation, from_evidence, to_evidence,
}

-- `class IntegrityError` of SQLAlchemy
pub data IntegrityError : Type 0 where
  unique_violation : IntegrityError

-- Columns that may be NULL are never in conflict where they are.
abbrev pub both_are : Option String → Option String → Bool
both_are (some a) (some b) = a == b
both_are _ _ = false

-- The columns that both unique constraints begin with.
abbrev pub same_instance : ObservationRow → ObservationRow → Bool
same_instance x r =
    r.provider == x.provider
    && r.provider_reference == x.provider_reference
    && r.observation_type == x.observation_type

-- `uq_obs_instance_version`
abbrev pub same_version : ObservationRow → ObservationRow → Bool
same_version x r = same_instance x r && both_are r.provider_version x.provider_version

-- `uq_obs_instance_event`
abbrev pub same_event : ObservationRow → ObservationRow → Bool
same_event x r = same_instance x r && both_are r.provider_event_id x.provider_event_id

-- The other constraints that an inserted row can violate.
abbrev pub violates : ObservationRow → ObservationRow → Bool
violates x r =
    r.observation_id == x.observation_id
    || r.ingestion_event_id == x.ingestion_event_id
    || same_event x r

-- The row that an update would duplicate: another one with the ingestion id.
abbrev pub duplicates : ObservationRow → ObservationRow → Bool
duplicates x r = not (same_version x r) && r.ingestion_event_id == x.ingestion_event_id

-- `set_={…}`
abbrev pub refreshed : ObservationRow → ObservationRow → ObservationRow
refreshed x r = record r {
  observed_state = x.observed_state;
  evidence_ids = x.evidence_ids;
  observed_at = x.observed_at;
  ingestion_event_id = x.ingestion_event_id;
}

abbrev pub is_newer : ObservationRow → ObservationRow → Bool
is_newer x r = ltb_ℤ (to_utc r.observed_at) (to_utc x.observed_at)

-- `INSERT … ON CONFLICT ON CONSTRAINT uq_obs_instance_version DO UPDATE SET … WHERE observed_at < …`
abbrev pub on_conflict :
    ObservationRow
    → Option ObservationRow
    → List ObservationRow
    → Result IntegrityError (List ObservationRow)
on_conflict x none rows =
    if any (violates x) rows then err unique_violation else ok (rows ++ x ∷ [])
on_conflict x (some r) rows =
    if is_newer x r
    then if any (duplicates x) rows
      then err unique_violation
      else ok (write_first (same_version x) (refreshed x) rows)
    else ok rows

unfoldable pub upsert :
    ObservationRow → List ObservationRow → Result IntegrityError (List ObservationRow)
upsert x rows = on_conflict x (find (same_version x) rows) rows

-- `save`
unfoldable pub save_observation :
    Observation → List ObservationRow → Result IntegrityError (List ObservationRow)
unfolding upsert from_observation
save_observation o rows = upsert (from_observation o) rows

abbrev as_observation : Option ObservationRow → Option Observation
as_observation none = none
as_observation (some r) = some (to_observation r)

-- `get`
unfoldable pub get_observation : String → List ObservationRow → Option Observation
unfolding to_observation
get_observation id rows =
    as_observation (find (λ (r : ObservationRow). r.observation_id == id) rows)

-- `find_by_business_identity`
unfoldable pub find_by_business_identity :
    String → String → String → List ObservationRow → List Observation
unfolding to_observation
find_by_business_identity provider reference type rows = map to_observation (
    keep
      (λ (r : ObservationRow).
        r.provider == provider && r.provider_reference == reference && r.observation_type == type)
      rows)

-- `if keys.…:` reads an empty text as missing.
abbrev pub is_set : Option String → Bool
is_set none = false
is_set (some s) = not (is_empty s)

-- A filter on a key that is set.
abbrev pub agrees : Option String → Option String → Bool
agrees wanted key = is_set wanted && both_are key wanted

abbrev pub of_keys : CorrelationKeys → ObservationRow → Bool
of_keys keys r =
    agrees keys.internal_ref r.correlation_keys.internal_ref
    || agrees keys.provider_ref r.correlation_keys.provider_ref
    || agrees keys.provider_ref (some r.provider_reference)

abbrev pub of_domain : CorrelationKeys → CorrelationKeys → Bool
of_domain keys stored = not (is_set keys.domain) || both_are stored.domain keys.domain

-- `find_by_correlation_keys`; with neither reference no row passes.
unfoldable pub find_observations : CorrelationKeys → List ObservationRow → List Observation
unfolding to_observation
find_observations keys rows =
    map to_observation
      (keep (λ (r : ObservationRow). of_keys keys r && of_domain keys r.correlation_keys) rows)

-- `get_all`
unfoldable pub get_all_observations : List ObservationRow → List Observation
unfolding to_observation
get_all_observations rows = map to_observation rows

-- `save`, which ignores an `IntegrityError`
unfoldable pub save_evidence : Evidence → List EvidenceRow → List EvidenceRow
unfolding from_evidence
save_evidence e rows =
    if any (λ (r : EvidenceRow). r.evidence_id == e.evidence_id) rows
    then rows
    else rows ++ from_evidence e ∷ []

abbrev as_evidence : Option EvidenceRow → Option Evidence
as_evidence none = none
as_evidence (some r) = some (to_evidence r)

-- `get`
unfoldable pub get_evidence : String → List EvidenceRow → Option Evidence
unfolding to_evidence
get_evidence id rows = as_evidence (find (λ (r : EvidenceRow). r.evidence_id == id) rows)

-- `get_by_ids`
unfoldable pub get_by_ids : List String → List EvidenceRow → List Evidence
unfolding to_evidence
get_by_ids ids rows =
    map to_evidence (keep (λ (r : EvidenceRow). any (λ id. id == r.evidence_id) ids) rows)
