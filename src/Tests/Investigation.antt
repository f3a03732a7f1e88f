-- ===== src/Tests/Investigation.antt =====
-- The validator at a concrete answer of the investigator.
use financial_control_engine.Base.{◌≡◌, refl, strip, [], ◌∷◌, none, some, ok, err}
use financial_control_engine.Investigation.Context.{AgentInput, permitted_intents}
use financial_control_engine.Investigation.Hypotheses.{
  RawOutput, CausalHypothesis, verification_proposed, query_provider_state, invalid_reference,
  schema_invalid, model_validate,
}
use financial_control_engine.Investigation.Validator.{
  validate, Grounded, validate-Grounded, check_evidence_references, check_intent_allowlist,
}

abbrev input : AgentInput
input = record {
  context_id = "c1";
  discrepancy_reason = some "STATE_MISMATCH";
  expectation = none;
  observations = [];
  evidence_records = record { evidence_id = "ev1"; source = "webhook"; observed_at = "then" } ∷ [];
  permitted_verification_intents = permitted_intents;
}

abbrev raw : RawOutput
raw = record {
  hypothesis_id = "h1";
  claim = " The webhook was lost. ";
  supporting_evidence_ids = "ev1" ∷ [];
  contradicting_evidence_ids = [];
  missing_evidence = "the payment";
  confidence = "LOW";
  disposition = "VERIFICATION_PROPOSED";
  verification_intents = "QUERY_PROVIDER_STATE" ∷ [];
}

abbrev accepted : CausalHypothesis
accepted = record {
  hypothesis_id = "h1";
  claim = "The webhook was lost.";
  supporting_evidence_ids = "ev1" ∷ [];
  contradicting_evidence_ids = [];
  missing_evidence = "the payment";
  confidence = "LOW";
  disposition = verification_proposed;
  verification_intents = query_provider_state ∷ [];
}

accepted_run : validate raw input ≡ ok accepted
unfolding validate model_validate strip check_evidence_references check_intent_allowlist
accepted_run = refl

-- A hallucinated reference, an intent that does not exist, and a claim without text.
hallucinated_run :
    validate (record raw { contradicting_evidence_ids = "ev9" ∷ [] }) input ≡ err invalid_reference
unfolding validate model_validate strip check_evidence_references check_intent_allowlist
hallucinated_run = refl

unknown_intent_run :
    validate (record raw { verification_intents = "REFUND" ∷ [] }) input ≡ err schema_invalid
unfolding validate model_validate strip check_evidence_references check_intent_allowlist
unknown_intent_run = refl

empty_claim_run : validate (record raw { claim = "  " }) input ≡ err schema_invalid
unfolding validate model_validate strip check_evidence_references check_intent_allowlist
empty_claim_run = refl

validate-Grounded_example : Grounded input accepted
unfolding validate model_validate strip check_evidence_references check_intent_allowlist
validate-Grounded_example = validate-Grounded raw input refl
