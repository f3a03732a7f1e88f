-- ===== src/Investigation/Hypotheses.antt =====
-- The data of src/domain/investigation/models.py. A raw output is one whose fields have the types of
-- the class; its enumerated fields are text still.
use financial_control_engine.Base.{
  String, ◌==◌, is_empty, strip, Bool, true, false, ◌&&◌, ◌||◌, List, [], ◌∷◌, map, Option, none,
  some, if◌then◌else◌,
}
use financial_control_engine.Core.Models.{Evidence, Observation}

-- `class VerificationIntent`
pub data VerificationIntent : Type 0 where
  query_provider_state query_provider_transaction compare_settlement_record : VerificationIntent

abbrev pub intent_value : VerificationIntent → String
intent_value query_provider_state = "QUERY_PROVIDER_STATE"
intent_value query_provider_transaction = "QUERY_PROVIDER_TRANSACTION"
intent_value compare_settlement_record = "COMPARE_SETTLEMENT_RECORD"

unfoldable pub intent_named : String → Option VerificationIntent
intent_named s =
    if s == "QUERY_PROVIDER_STATE"
    then some query_provider_state
    else if s == "QUERY_PROVIDER_TRANSACTION"
    then some query_provider_transaction
    else if s == "COMPARE_SETTLEMENT_RECORD"
    then some compare_settlement_record
    else none

-- `class InvestigationDisposition`
pub data InvestigationDisposition : Type 0 where
  verification_proposed investigation_exhausted : InvestigationDisposition

unfoldable pub disposition_named : String → Option InvestigationDisposition
disposition_named s =
    if s == "VERIFICATION_PROPOSED"
    then some verification_proposed
    else if s == "INVESTIGATION_EXHAUSTED"
    then some investigation_exhausted
    else none

-- What the investigator answered.
pub record RawOutput : Type 0 where
  pub hypothesis_id : String
  pub claim : String
  pub supporting_evidence_ids : List String
  pub contradicting_evidence_ids : List String
  pub missing_evidence : String
  pub confidence : String
  pub disposition : String
  pub verification_intents : List String

-- `class CausalHypothesis`
pub record CausalHypothesis : Type 0 where
  pub hypothesis_id : String
  pub claim : String
  pub supporting_evidence_ids : List String
  pub contradicting_evidence_ids : List String
  pub missing_evidence : String
  pub confidence : String
  pub disposition : InvestigationDisposition
  pub verification_intents : List VerificationIntent

unfoldable pub intents_named : List String → Option (List VerificationIntent)
unfolding intent_named
intents_named [] = some []
intents_named (s ∷ ss) = elim (intent_named s) [
  | none ↦ none
  | some i ↦ elim (intents_named ss) [ none ↦ none | some is ↦ some (i ∷ is) ]
]

abbrev pub is_confidence : String → Bool
is_confidence s = s == "LOW" || s == "MEDIUM" || s == "HIGH"

-- `_intent_consistent_with_disposition`
abbrev pub is_consistent : InvestigationDisposition → List VerificationIntent → Bool
is_consistent verification_proposed [] = false
is_consistent verification_proposed (i ∷ is) = true
is_consistent investigation_exhausted [] = true
is_consistent investigation_exhausted (i ∷ is) = false

abbrev pub are_texts : RawOutput → Bool
are_texts raw =
    if is_empty (strip raw.claim)
    then false
    else if is_empty (strip raw.missing_evidence)
    then false
    else is_confidence raw.confidence

abbrev pub checked :
    RawOutput
    → Option InvestigationDisposition
    → Option (List VerificationIntent)
    → Option CausalHypothesis
checked raw none is = none
checked raw (some d) none = none
checked raw (some d) (some is) =
    if are_texts raw && is_consistent d is
    then some (record {
      hypothesis_id = raw.hypothesis_id;
      claim = strip raw.claim;
      supporting_evidence_ids = raw.supporting_evidence_ids;
      contradicting_evidence_ids = raw.contradicting_evidence_ids;
      missing_evidence = strip raw.missing_evidence;
      confidence = raw.confidence;
      disposition = d;
      verification_intents = is;
    })
    else none

-- `CausalHypothesis.model_validate`; `none` is the `ValidationError`.
unfoldable pub model_validate : RawOutput → Option CausalHypothesis
unfolding disposition_named intents_named
model_validate raw =
    checked raw (disposition_named raw.disposition) (intents_named raw.verification_intents)

abbrev disposition_value : InvestigationDisposition → String
disposition_value verification_proposed = "VERIFICATION_PROPOSED"
disposition_value investigation_exhausted = "INVESTIGATION_EXHAUSTED"

-- `hypothesis.model_dump(mode="json")`
unfoldable pub model_dump : CausalHypothesis → RawOutput
model_dump h = record {
  hypothesis_id = h.hypothesis_id;
  claim = h.claim;
  supporting_evidence_ids = h.supporting_evidence_ids;
  contradicting_evidence_ids = h.contradicting_evidence_ids;
  missing_evidence = h.missing_evidence;
  confidence = h.confidence;
  disposition = disposition_value h.disposition;
  verification_intents = map intent_value h.verification_intents;
}

-- `class ValidationRejectionReason`
pub data ValidationRejectionReason : Type 0 where
  schema_invalid invalid_reference invalid_intent : ValidationRejectionReason
  intent_disposition_mismatch : ValidationRejectionReason

-- `class VerificationStatus`
pub data VerificationStatus : Type 0 where
  succeeded rejected failed : VerificationStatus

-- `class VerificationResult`, without its fresh id and time
pub record VerificationResult : Type 0 where
  pub intent : VerificationIntent
  pub status : VerificationStatus
  pub evidence_ids : List String
  pub new_evidence : List Evidence
  pub new_observations : List Observation
  pub failure_reason : Option String
