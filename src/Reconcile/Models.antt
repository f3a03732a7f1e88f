-- ===== src/Reconcile/Models.antt =====
-- The records of src/reconciliation/models.py. A `Decimal` is an integer at a fixed scale, an
-- instant a number of microseconds.
use financial_control_engine.Base.{
  ℕ, ◌*◌, String, Bool, true, false, List, Option, Result, ok, err, if◌then◌else◌, is_empty,
}
use financial_control_engine.Base.Int.{ℤ, pos, pos_part, ◌+ℤ◌, ltb_ℤ, leb_ℤ}
use financial_control_engine.StateEngine.Models.{KnowledgeState}

-- `datetime`, with or without a time zone.
pub data Datetime : Type 0 where
  naive aware : ℤ → Datetime

-- `class DiscrepancyType`
pub data DiscrepancyType : Type 0 where
  match in_flight_pending epistemic_stalemate absent_execution : DiscrepancyType
  value_mismatch currency_mismatch contradictory_terminality : DiscrepancyType
  orphaned_execution excess_effect : DiscrepancyType

-- `class ExpectedRefund`, as `__post_init__` lets it be built: `created_at` has a time zone, and
-- `sla_seconds` is not negative.
pub record ExpectedRefund : Type 0 where
  pub refund_intent_id : String
  pub provider_payment_id : String
  pub amount : ℤ
  pub currency : String
  pub created_at : ℤ
  pub sla_seconds : ℕ
  pub source_system : String
  pub business_reason : String
  pub originating_trace_id : String
  pub expectation_id : String

-- The arguments of the constructor, before `__post_init__` has looked at them.
pub record RefundFields : Type 0 where
  pub refund_intent_id : String
  pub provider_payment_id : String
  pub amount : ℤ
  pub currency : String
  pub created_at : Datetime
  pub sla_seconds : ℤ
  pub source_system : String
  pub business_reason : String
  pub originating_trace_id : String
  pub expectation_id : String

-- The `ValueError`s of `__post_init__`.
pub data RefundError : Type 0 where
  empty_intent_id empty_payment_id amount_not_positive : RefundError
  empty_currency negative_sla naive_created_at : RefundError

abbrev build : RefundFields → Datetime → Result RefundError ExpectedRefund
build f (naive t) = err naive_created_at
build f (aware t) = ok (record {
  refund_intent_id = f.refund_intent_id;
  provider_payment_id = f.provider_payment_id;
  amount = f.amount;
  currency = f.currency;
  created_at = t;
  sla_seconds = pos_part f.sla_seconds;
  source_system = f.source_system;
  business_reason = f.business_reason;
  originating_trace_id = f.originating_trace_id;
  expectation_id = f.expectation_id;
})

-- `ExpectedRefund.__post_init__`
unfoldable pub expected_refund : RefundFields → Result RefundError ExpectedRefund
expected_refund f =
    if is_empty f.refund_intent_id
    then err empty_intent_id
    else if is_empty f.provider_payment_id
    then err empty_payment_id
    else if leb_ℤ f.amount (pos 0)
    then err amount_not_positive
    else if is_empty f.currency
    then err empty_currency
    else if ltb_ℤ f.sla_seconds (pos 0)
    then err negative_sla
    else build f f.created_at

-- `reconciliation_deadline`
abbrev pub reconciliation_deadline : ExpectedRefund → ℤ
reconciliation_deadline e = e.created_at +ℤ pos (e.sla_seconds * 1000000)

-- The `details` dictionary, by the branch that builds it and what it puts in.
pub data Details : Type 0 where
  orphan_without_expectation orphan_without_execution : Details
  no_observations : Bool → ℤ → Details
  many_executions : ℤ → Details
  terminal_failure expectation_satisfied : Details
  currency_differs : String → Option String → Details
  value_differs : ℤ → Option ℤ → Details
  within_grace not_executed_confirmed : ℤ → Details
  proof_incomplete : KnowledgeState → ℤ → Details

-- `class ReconciliationResult`
pub record ReconciliationResult : Type 0 where
  pub expectation_id : Option String
  pub intent_id : String
  pub discrepancy_type : DiscrepancyType
  pub is_actionable : Bool
  pub reconciliation_timestamp : ℤ
  pub expected_amount : Option ℤ
  pub expected_currency : Option String
  pub observed_amount : Option ℤ
  pub observed_currency : Option String
  pub observed_knowledge_state : KnowledgeState
  pub reconstructed_state_ids : List String
  pub details : Details

abbrev pub is_match : DiscrepancyType → Bool
is_match match = true
is_match _ = false

-- `is_clean_match`
abbrev pub is_clean_match : ReconciliationResult → Bool
is_clean_match r = is_match r.discrepancy_type

-- `requires_investigation`
abbrev pub type_requires_investigation : DiscrepancyType → Bool
type_requires_investigation match = false
type_requires_investigation in_flight_pending = false
type_requires_investigation _ = true

abbrev pub requires_investigation : ReconciliationResult → Bool
requires_investigation r = type_requires_investigation r.discrepancy_type
