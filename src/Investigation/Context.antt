-- ===== src/Investigation/Context.antt =====
-- `InvestigationContext` of src/domain/investigation/context.py, `EvidenceAssembler.assemble` of
-- src/engine/evidence_assembler.py and `format_context_for_investigation` of
-- src/investigation/input_formatter.py.
use financial_control_engine.Base.{
  is_empty, if◌then◌else◌, String, List, [], ◌∷◌, ◌++◌, map, Option, none, some,
}
use financial_control_engine.Base.Int.{ℤ}
use financial_control_engine.Core.Models.{
  Datetime, aware, status_value, Expectation, Observation, Evidence, DiscrepancyReason,
}
use financial_control_engine.Substrate.Rows.{ExpectationRow, ObservationRow, EvidenceRow}
use financial_control_engine.Substrate.Observations.{get_observation, get_by_ids}
use financial_control_engine.Substrate.Expectations.{get_expectation}
use financial_control_engine.Substrate.Results.{StoredResult, reason_value}

-- `class InvestigationContext`
pub record InvestigationContext : Type 0 where
  pub context_id : String
  pub active_discrepancy : StoredResult
  pub expectation : Option Expectation
  pub observations : List Observation
  pub evidence_records : List Evidence

-- The observations with the ids that are in the table.
unfoldable pub observations_of : List String → List ObservationRow → List Observation
unfolding get_observation
observations_of [] rows = []
observations_of (id ∷ ids) rows = elim (get_observation id rows) [
  | none ↦ observations_of ids rows
  | some o ↦ o ∷ observations_of ids rows
]

abbrev evidence_of : List Observation → List String
evidence_of [] = []
evidence_of (o ∷ os) = o.evidence_ids ++ evidence_of os

unfoldable pub expectation_of : Option String → List ExpectationRow → Option Expectation
unfolding get_expectation
expectation_of none rows = none
expectation_of (some id) rows = if is_empty id then none else get_expectation id rows

-- `assemble`, with the fresh id of the context
unfoldable pub assemble :
    String
    → StoredResult
    → List ExpectationRow
    → List ObservationRow
    → List EvidenceRow
    → InvestigationContext
unfolding observations_of expectation_of get_by_ids
assemble context_id r expectations observations evidence =
    let seen = observations_of r.result.observation_ids observations in
    record {
      context_id = context_id;
      active_discrepancy = r;
      expectation = expectation_of r.result.expectation_id expectations;
      observations = seen;
      evidence_records = get_by_ids (evidence_of seen) evidence;
    }

-- The entries of the dictionary that the investigator is given.
pub record AgentExpectation : Type 0 where
  pub domain : String
  pub expected_state : String
  pub amount : String
  pub currency : String
  pub source_system : String
  pub created_at : String

pub record AgentObservation : Type 0 where
  pub observation_id : String
  pub provider : String
  pub observation_type : String
  pub observed_state : String
  pub amount : String
  pub currency : String
  pub evidence_ids : List String
  pub observed_at : String

pub record AgentEvidence : Type 0 where
  pub evidence_id : String
  pub source : String
  pub observed_at : String

pub record AgentInput : Type 0 where
  pub context_id : String
  pub discrepancy_reason : Option String
  pub expectation : Option AgentExpectation
  pub observations : List AgentObservation
  pub evidence_records : List AgentEvidence
  pub permitted_verification_intents : List String

-- `_PERMITTED_INTENTS`
abbrev pub permitted_intents : List String
permitted_intents =
    "QUERY_PROVIDER_STATE" ∷ "QUERY_PROVIDER_TRANSACTION" ∷ "COMPARE_SETTLEMENT_RECORD" ∷ []

-- `str(amount)` and `isoformat()`
module _ (str : ℤ → String) (iso : Datetime → String) where
  abbrev format_expectation : Option Expectation → Option AgentExpectation
  format_expectation none = none
  format_expectation (some e) = some (record {
    domain = e.domain;
    expected_state = status_value e.expected_canonical_status;
    amount = str e.expected_amount;
    currency = e.currency;
    source_system = e.source_system;
    created_at = iso (aware e.created_at);
  })

  abbrev format_observation : Observation → AgentObservation
  format_observation o = record {
    observation_id = o.observation_id;
    provider = o.provider;
    observation_type = o.observation_type;
    observed_state = status_value o.canonical_status;
    amount = str o.observed_amount;
    currency = o.currency;
    evidence_ids = o.evidence_ids;
    observed_at = iso o.observed_at;
  }

  abbrev pub format_evidence : Evidence → AgentEvidence
  format_evidence e = record {
    evidence_id = e.evidence_id;
    source = e.source;
    observed_at = iso e.observed_at;
  }

  abbrev format_reason : Option DiscrepancyReason → Option String
  format_reason none = none
  format_reason (some r) = some (reason_value r)

  -- `format_context_for_investigation`
  unfoldable pub format_context_for_investigation : InvestigationContext → AgentInput
  format_context_for_investigation c = record {
    context_id = c.context_id;
    discrepancy_reason = format_reason c.active_discrepancy.result.discrepancy_reason;
    expectation = format_expectation c.expectation;
    observations = map format_observation c.observations;
    evidence_records = map format_evidence c.evidence_records;
    permitted_verification_intents = permitted_intents;
  }
