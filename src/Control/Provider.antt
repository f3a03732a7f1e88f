-- ===== src/Control/Provider.antt =====
-- The provider boundary of src/integrations/provider.py: a response's descriptor is translated into
-- a mutation outcome or a query confidence.
use financial_control_engine.Base.{
  String, ◌≡◌, ◌↔◌, Bool, true, false, ◌||◌, Option, none, some, if◌then◌else◌, arith,
}
use financial_control_engine.StateEngine.Models.{
  ProviderQueryConfidence, authoritative_executed, authoritative_not_executed,
  non_authoritative_query, query_failed,
}

-- `class ProviderMutationOutcome`
pub data ProviderMutationOutcome : Type 0 where
  accepted_executed accepted_pending explicitly_rejected : ProviderMutationOutcome
  ambiguous_outcome idempotency_mismatch transient_conflict : ProviderMutationOutcome

-- `class ProviderResponse`
pub record ProviderResponse : Type 0 where
  pub raw_status : String
  pub is_cached_response : Bool
  pub is_partial_lookup : Bool
  pub network_timeout : Bool
  pub refund_exists : Bool
  pub is_idempotency_mismatch : Bool
  pub is_transient_conflict : Bool
  pub is_explicit_rejection : Bool

-- `execute_refund`; the idempotency key is not read.
unfoldable pub execute_refund : String → Option ProviderResponse → ProviderMutationOutcome
execute_refund idempotency_key none = ambiguous_outcome
execute_refund idempotency_key (some r) =
    if r.network_timeout
    then ambiguous_outcome
    else if r.is_idempotency_mismatch
    then idempotency_mismatch
    else if r.is_transient_conflict
    then transient_conflict
    else if r.is_explicit_rejection
    then explicitly_rejected
    else if r.refund_exists
    then accepted_executed
    else accepted_pending

-- `query_refund_status`; the idempotency key is not read.
unfoldable pub query_refund_status : String → Option ProviderResponse → ProviderQueryConfidence
query_refund_status idempotency_key none = query_failed
query_refund_status idempotency_key (some r) =
    if r.network_timeout
    then query_failed
    else if r.is_cached_response || r.is_partial_lookup
    then non_authoritative_query
    else if r.refund_exists
    then authoritative_executed
    else authoritative_not_executed

-- A response that is fresh, complete and arrived.
abbrev pub IsAuthoritative : ProviderResponse → Type 0
IsAuthoritative r =
    (r.network_timeout ≡ false) × (r.is_cached_response ≡ false) × (r.is_partial_lookup ≡ false)

abbrev pub ShowsNoRefund : Option ProviderResponse → Type 0
ShowsNoRefund none = ⊥
ShowsNoRefund (some r) = IsAuthoritative r × (r.refund_exists ≡ false)

-- AUTHORITATIVE_NOT_EXECUTED is answered exactly for a response that arrived, was neither cached
-- nor partial, and has no refund.
pub not_executed_iff :
    (key : String) (response : Option ProviderResponse)
    → (query_refund_status key response ≡ authoritative_not_executed) ↔ ShowsNoRefund response
unfolding query_refund_status
not_executed_iff key none = ground arith
not_executed_iff key (some r) = ground arith

abbrev pub ConfirmsExecution : Option ProviderResponse → Type 0
ConfirmsExecution none = ⊥
ConfirmsExecution (some r) = (r.network_timeout ≡ false) × (r.refund_exists ≡ true)

-- A mutation is reported as executed only for a response that arrived and has the refund.
pub executed_confirmed :
    (key : String) (response : Option ProviderResponse)
    → execute_refund key response ≡ accepted_executed
    → ConfirmsExecution response
unfolding execute_refund
executed_confirmed key none h = cc
executed_confirmed key (some r) h = ground arith
