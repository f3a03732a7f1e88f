-- ===== src/StateEngine/Models.antt =====
-- The records of src/state/models.py and src/evidence/models.py, and the confidences of
-- src/integrations/provider.py.
use financial_control_engine.Base.{String, List, Option, none, some, if◌then◌else◌, ◌==◌}
use financial_control_engine.Base.Int.{ℤ}

-- `class ObservedFinancialState`
pub data ObservedFinancialState : Type 0 where
  captured refunded failed processing voided : ObservedFinancialState

-- `class KnowledgeState`
pub data KnowledgeState : Type 0 where
  verified unknown contradicted : KnowledgeState

-- `class ExecutionState`
pub data ExecutionState : Type 0 where
  executed not_executed : ExecutionState

-- `class EntityType`
pub data EntityType : Type 0 where
  payment refund_intent : EntityType

-- `entity_type.value`
abbrev pub entity_value : EntityType → String
entity_value payment = "PAYMENT"
entity_value refund_intent = "REFUND_INTENT"

-- `class ProviderQueryConfidence`
pub data ProviderQueryConfidence : Type 0 where
  authoritative_executed authoritative_not_executed : ProviderQueryConfidence
  non_authoritative_query query_failed : ProviderQueryConfidence

-- `confidence.value`
abbrev pub confidence_value : ProviderQueryConfidence → String
confidence_value authoritative_executed = "AUTHORITATIVE_EXECUTED"
confidence_value authoritative_not_executed = "AUTHORITATIVE_NOT_EXECUTED"
confidence_value non_authoritative_query = "NON_AUTHORITATIVE_QUERY"
confidence_value query_failed = "QUERY_FAILED"

-- `payload["provider_timestamp"]`: a number of microseconds, an ISO text with the instant that it
-- names, or a value that `fromisoformat` refuses.
pub data ProviderTimestamp : Type 0 where
  unix : ℤ → ProviderTimestamp
  iso : ℤ → ProviderTimestamp
  malformed : ProviderTimestamp

-- The keys of `payload` that the engine reads; `none` where the key is missing.
pub record Payload : Type 0 where
  pub status : Option String
  pub query_confidence : Option String
  pub execution_state : Option String
  pub provider_sequence : Option ℤ
  pub provider_timestamp : Option ProviderTimestamp
  pub amount : Option ℤ
  pub currency : Option String

-- `class ProviderObservation`; `created_at` in microseconds.
pub record ProviderObservation : Type 0 where
  pub provider : String
  pub event_id : String
  pub entity_type : String
  pub entity_id : String
  pub event_type : String
  pub payload : Payload
  pub id : String
  pub created_at : Option ℤ

-- `class ReconstructedState`; `reconstructed_at` in microseconds.
pub record ReconstructedState : Type 0 where
  pub entity_type : EntityType
  pub entity_id : String
  pub observed_financial_state : Option ObservedFinancialState
  pub knowledge_state : KnowledgeState
  pub execution : Option ExecutionState
  pub observation_ids : List String
  pub reconstructed_at : ℤ

-- `ObservedFinancialState(value)`; `none` where the call raises `ValueError`.
unfoldable pub parse_financial_state : String → Option ObservedFinancialState
parse_financial_state s =
    if s == "CAPTURED"
    then some captured
    else if s == "REFUNDED"
    then some refunded
    else if s == "FAILED"
    then some failed
    else if s == "PROCESSING"
    then some processing
    else if s == "VOIDED"
    then some voided
    else none
