-- ===== src/Core/Models.antt =====
-- The dataclasses and enumerations of src/domain/core/models.py. Generated ids and clock readings
-- are arguments of the code that creates a record.
use financial_control_engine.Base.{some, none, ℕ, String, Bool, List, Option, nat_eq}
use financial_control_engine.Base.Int.{ℤ}

-- `class BusinessStatus`
pub data BusinessStatus : Type 0 where
  created open_status satisfied failed_business expired : BusinessStatus

-- `class CanonicalStatus`
pub data CanonicalStatus : Type 0 where
  pending settled failed unknown refunded : CanonicalStatus

-- `==` on the enumeration
abbrev pub status_ordinal : CanonicalStatus → ℕ
status_ordinal pending = 0
status_ordinal settled = 1
status_ordinal failed = 2
status_ordinal unknown = 3
status_ordinal refunded = 4

abbrev pub status_eq : CanonicalStatus → CanonicalStatus → Bool
status_eq a b = nat_eq (status_ordinal a) (status_ordinal b)

-- `status.value`
abbrev pub status_value : CanonicalStatus → String
status_value pending = "PENDING"
status_value settled = "SETTLED"
status_value failed = "FAILED"
status_value unknown = "UNKNOWN"
status_value refunded = "REFUNDED"

-- `class ReconciliationOutcome`
pub data ReconciliationOutcome : Type 0 where
  match discrepancy : ReconciliationOutcome

-- `class DiscrepancyReason`
pub data DiscrepancyReason : Type 0 where
  absent_execution amount_mismatch state_mismatch : DiscrepancyReason
  duplicate_execution unexpected_execution sla_breach : DiscrepancyReason

-- `class CorrelationKeys`
pub record CorrelationKeys : Type 0 where
  pub internal_ref : Option String
  pub provider_ref : Option String
  pub provider : Option String
  pub domain : Option String
  pub observation_type : Option String

-- `datetime`: naive values, as SQLite returns them, are read as UTC.
pub data Datetime : Type 0 where
  naive aware : ℤ → Datetime

-- `class Expectation`
pub record Expectation : Type 0 where
  pub domain : String
  pub expected_canonical_status : CanonicalStatus
  pub expected_amount : ℤ
  pub currency : String
  pub source_system : String
  pub correlation_keys : CorrelationKeys
  pub expectation_id : String
  pub business_status : BusinessStatus
  pub created_at : ℤ

-- `class Evidence`
pub record Evidence : Type 0 where
  pub source : String
  pub source_reference : String
  pub payload_hash : String
  pub raw_payload_ref : String
  pub observed_at : Datetime
  pub source_type : String
  pub ingested_at : Datetime
  pub evidence_id : String

-- `class FinancialEvent`
pub record FinancialEvent : Type 0 where
  pub event_type : String
  pub amount : Option ℤ
  pub currency : Option String
  pub timestamp : Datetime

-- `Observation.__post_init__`
abbrev pub initial_version : Option String → Option String
initial_version none = some ""
initial_version (some v) = some v

-- `class Observation`
pub record Observation : Type 0 where
  pub provider : String
  pub provider_reference : String
  pub observation_type : String
  pub canonical_status : CanonicalStatus
  pub observed_amount : ℤ
  pub currency : String
  pub events : List FinancialEvent
  pub evidence_ids : List String
  pub correlation_keys : CorrelationKeys
  pub provider_event_id : Option String
  pub provider_version : Option String
  pub observed_at : Datetime
  pub ingestion_event_id : String
  pub observation_id : String

-- `class RecoveryAction`
pub data RecoveryAction : Type 0 where
  repair_merchant_state refund_payment escalate : RecoveryAction

-- `action.value`
abbrev pub action_value : RecoveryAction → String
action_value repair_merchant_state = "REPAIR_MERCHANT_STATE"
action_value refund_payment = "REFUND_PAYMENT"
action_value escalate = "ESCALATE"

-- `class RecoveryIntent`
pub record RecoveryIntent : Type 0 where
  pub action : RecoveryAction
  pub target_id : String
  pub amount : Option ℤ
  pub currency : Option String
  pub reason : Option String
  pub expected_provider_state : Option String

-- `class ReconciliationResult`, without its fresh id and time
pub record ReconciliationResult : Type 0 where
  pub expectation_id : Option String
  pub observation_ids : List String
  pub outcome : ReconciliationOutcome
  pub reconciliation_reason : String
  pub discrepancy_reason : Option DiscrepancyReason
