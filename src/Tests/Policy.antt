-- ===== src/Tests/Policy.antt =====
-- The policy at concrete observations.
use mathlib.Core.List.{Memᴰ}
use financial_control_engine.Base.{
  String, ◌≡◌, refl, inr, lower, [], ◌∷◌, Option, none, some, arith,
}
use financial_control_engine.Base.Int.{pos}
use financial_control_engine.Core.Models.{
  CanonicalStatus, pending, settled, failed, CorrelationKeys, Datetime, naive, aware, Observation,
  repair_merchant_state, refund_payment, escalate,
}
use financial_control_engine.Policy.Evaluate.{PolicyContext, evaluate}
use financial_control_engine.Policy.Intents.{Decided, refund-Decided, repair-Decided}
use financial_control_engine.Policy.Contradictions.{contradiction_escalates}

abbrev show : Datetime → String
show (naive t) = "then"
show (aware t) = "then"

abbrev no_keys : CorrelationKeys
no_keys = record {
  internal_ref = none;
  provider_ref = none;
  provider = none;
  domain = none;
  observation_type = none;
}

abbrev observed : String → String → CanonicalStatus → Datetime → String → Observation
observed provider reference status at id = record {
  provider = provider;
  provider_reference = reference;
  observation_type = "api_response";
  canonical_status = status;
  observed_amount = pos 700;
  currency = "INR";
  events = [];
  evidence_ids = [];
  correlation_keys = no_keys;
  provider_event_id = none;
  provider_version = some "";
  observed_at = at;
  ingestion_event_id = id;
  observation_id = id;
}

abbrev cancelled : Observation
cancelled = observed "merchant" "order_1" failed (naive (pos 8)) "o1"

abbrev unpaid : Observation
unpaid = observed "Merchant" "order_1" pending (aware (pos 5)) "o2"

abbrev captured : Observation
captured = observed "Razorpay" "pay_1" settled (aware (pos 6)) "o3"

abbrev reversed : Observation
reversed = observed "razorpay" "pay_1" failed (naive (pos 6)) "o4"

abbrev context : Option PolicyContext
context = some (record { expectation = none; observations = unpaid ∷ captured ∷ [] })

refund_run :
    (evaluate show "pay_1" (unpaid ∷ captured ∷ cancelled ∷ []) context).action ≡ refund_payment
unfolding evaluate lower
refund_run = refl

repair_run : (evaluate show "pay_1" (unpaid ∷ captured ∷ []) context).action ≡ repair_merchant_state
unfolding evaluate lower
repair_run = refl

refund-Decided_example :
    let i = evaluate show "pay_1" (unpaid ∷ captured ∷ cancelled ∷ []) context in
    (d : Decided (unpaid ∷ captured ∷ cancelled ∷ []) "pay_1" context i)
    × (d.merchant.canonical_status ≡ failed)
    × (d.provider.canonical_status ≡ settled)
    × (i.target_id ≡ d.provider.provider_reference)
    × (i.amount ≡ some d.provider.observed_amount)
    × (i.currency ≡ some d.provider.currency)
refund-Decided_example =
    refund-Decided show "pay_1" (unpaid ∷ captured ∷ cancelled ∷ []) context refund_run

repair-Decided_example :
    let i = evaluate show "pay_1" (unpaid ∷ captured ∷ []) context in
    (d : Decided (unpaid ∷ captured ∷ []) "pay_1" context i) × (d.merchant.canonical_status
      ≡ pending)
    × (d.provider.canonical_status ≡ settled)
    × (d.merchant.observed_amount ≡ d.provider.observed_amount)
    × (d.merchant.currency ≡ d.provider.currency)
    × (i.target_id ≡ d.merchant.provider_reference)
    × (i.expected_provider_state ≡ some "SETTLED")
repair-Decided_example = repair-Decided show "pay_1" (unpaid ∷ captured ∷ []) context repair_run

contradiction_escalates_example :
    (evaluate show "pay_1" (captured ∷ reversed ∷ []) context).action ≡ escalate
unfolding lower
contradiction_escalates_example =
    contradiction_escalates show "pay_1" (captured ∷ reversed ∷ []) context "Razorpay" captured
      reversed (inr refl) (Memᴰ.head refl) (Memᴰ.tail (Memᴰ.head refl)) refl refl
      ((λ _. ground arith), ((λ _. ground arith), tt)) refl (λ e. cc)
