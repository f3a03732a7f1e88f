-- ===== src/Substrate/Rows.antt =====
-- The rows of src/storage/postgres_substrate.py and their conversions `from_domain` and `to_domain`.
-- JSON columns hold the lists and keys that they encode.
use financial_control_engine.Base.{[], String, ◌==◌, ◌≡◌, refl, List, Option, if◌then◌else◌}
use financial_control_engine.Base.Int.{ℤ}
use financial_control_engine.Core.Models.{
  BusinessStatus, CanonicalStatus, pending, settled, failed, unknown, refunded, status_value,
  CorrelationKeys, Datetime, Expectation, Evidence, Observation, initial_version,
}
use financial_control_engine.Matching.Grouping.{to_utc}

-- `CanonicalStatus(status_val)`, or UNKNOWN where that raises
unfoldable pub canonical_status_of : String → CanonicalStatus
canonical_status_of s =
    if s == "PENDING"
    then pending
    else if s == "SETTLED"
    then settled
    else if s == "FAILED"
    then failed
    else if s == "REFUNDED"
    then refunded
    else unknown

-- `class SubstrateExpectationRecord`
pub record ExpectationRow : Type 0 where
  pub expectation_id : String
  pub domain : String
  pub expected_state : String
  pub expected_amount : ℤ
  pub currency : String
  pub source_system : String
  pub business_status : BusinessStatus
  pub correlation_keys : CorrelationKeys
  pub created_at : Datetime

-- `class SubstrateEvidenceRecord`, which has no column for the source type
pub record EvidenceRow : Type 0 where
  pub evidence_id : String
  pub source : String
  pub source_reference : String
  pub payload_hash : String
  pub raw_payload_ref : String
  pub observed_at : Datetime
  pub ingested_at : Datetime

-- `class SubstrateObservationRecord`
pub record ObservationRow : Type 0 where
  pub observation_id : String
  pub provider : String
  pub provider_reference : String
  pub observation_type : String
  pub observed_state : String
  pub observed_amount : ℤ
  pub currency : String
  pub evidence_ids : List String
  pub correlation_keys : CorrelationKeys
  pub provider_event_id : Option String
  pub provider_version : Option String
  pub observed_at : Datetime
  pub ingestion_event_id : String

-- `SubstrateExpectationRecord.to_domain`
unfoldable pub to_expectation : ExpectationRow → Expectation
unfolding canonical_status_of
to_expectation r = record {
  domain = r.domain;
  expected_canonical_status = canonical_status_of r.expected_state;
  expected_amount = r.expected_amount;
  currency = r.currency;
  source_system = r.source_system;
  correlation_keys = r.correlation_keys;
  expectation_id = r.expectation_id;
  business_status = r.business_status;
  created_at = to_utc r.created_at;
}

-- `SubstrateExpectationRecord.from_domain`
unfoldable pub from_expectation : Expectation → ExpectationRow
from_expectation e = record {
  expectation_id = e.expectation_id;
  domain = e.domain;
  expected_state = status_value e.expected_canonical_status;
  expected_amount = e.expected_amount;
  currency = e.currency;
  source_system = e.source_system;
  business_status = e.business_status;
  correlation_keys = e.correlation_keys;
  created_at = Datetime.aware e.created_at;
}

-- `SubstrateEvidenceRecord.to_domain`: the source type is the default of the class.
unfoldable pub to_evidence : EvidenceRow → Evidence
to_evidence r = record {
  source = r.source;
  source_reference = r.source_reference;
  payload_hash = r.payload_hash;
  raw_payload_ref = r.raw_payload_ref;
  observed_at = r.observed_at;
  source_type = "UNKNOWN";
  ingested_at = r.ingested_at;
  evidence_id = r.evidence_id;
}

-- `SubstrateEvidenceRecord.from_domain`
unfoldable pub from_evidence : Evidence → EvidenceRow
from_evidence e = record {
  evidence_id = e.evidence_id;
  source = e.source;
  source_reference = e.source_reference;
  payload_hash = e.payload_hash;
  raw_payload_ref = e.raw_payload_ref;
  observed_at = e.observed_at;
  ingested_at = e.ingested_at;
}

-- `SubstrateObservationRecord.to_domain`
unfoldable pub to_observation : ObservationRow → Observation
unfolding canonical_status_of
to_observation r = record {
  provider = r.provider;
  provider_reference = r.provider_reference;
  observation_type = r.observation_type;
  canonical_status = canonical_status_of r.observed_state;
  observed_amount = r.observed_amount;
  currency = r.currency;
  events = [];
  evidence_ids = r.evidence_ids;
  correlation_keys = r.correlation_keys;
  provider_event_id = r.provider_event_id;
  provider_version = initial_version r.provider_version;
  observed_at = r.observed_at;
  ingestion_event_id = r.ingestion_event_id;
  observation_id = r.observation_id;
}

-- `SubstrateObservationRecord.from_domain`
unfoldable pub from_observation : Observation → ObservationRow
from_observation o = record {
  observation_id = o.observation_id;
  provider = o.provider;
  provider_reference = o.provider_reference;
  observation_type = o.observation_type;
  observed_state = status_value o.canonical_status;
  observed_amount = o.observed_amount;
  currency = o.currency;
  evidence_ids = o.evidence_ids;
  correlation_keys = o.correlation_keys;
  provider_event_id = o.provider_event_id;
  provider_version = o.provider_version;
  observed_at = o.observed_at;
  ingestion_event_id = o.ingestion_event_id;
}

status_returns : (s : CanonicalStatus) → canonical_status_of (status_value s) ≡ s
unfolding canonical_status_of
status_returns pending = refl
status_returns settled = refl
status_returns failed = refl
status_returns unknown = refl
status_returns refunded = refl

pub observation_returns :
    (o : Observation)
    → to_observation (from_observation o)
      ≡ record o { events = []; provider_version = initial_version o.provider_version }
unfolding to_observation from_observation
observation_returns o = rw (status_returns o.canonical_status) refl

-- What is read of a row that was written from an expectation is that expectation, with every field.
pub expectation_returns : (e : Expectation) → to_expectation (from_expectation e) ≡ e
unfolding to_expectation from_expectation
expectation_returns e = rw (status_returns e.expected_canonical_status) refl
