-- ===== src/Worker/Observer.antt =====
-- `SimulatedObserver` of src/engine/observer.py, and the loop of src/engine/worker.py that observes
-- again before an escalation.
use financial_control_engine.Base.{
  ℕ, String, ◌==◌, is_empty, lower, upper, contains, List, [], ◌∷◌, ◌++◌, Option, none, some,
  Result, ok, err, if◌then◌else◌,
}
use financial_control_engine.Core.Models.{
  CanonicalStatus, pending, settled, failed, unknown, refunded, status_eq, CorrelationKeys,
  Observation, initial_version,
}
use financial_control_engine.Base.Int.{ℤ}
use financial_control_engine.Worker.Runs.{Raised, unexpected, Run, pure, ask, attempt, ◌>>=◌}
use financial_control_engine.Worker.Services.{
  Services, utc_now, ProviderFailure, client_error, network_error, other_error, MerchantOrder,
  ProviderPayment, ProviderRefund,
}

abbrev keys : Option String → Option String → CorrelationKeys
keys internal provider = record {
  internal_ref = internal;
  provider_ref = provider;
  provider = none;
  domain = none;
  observation_type = none;
}

-- The observation that is made of an answer, with the defaults of its class.
abbrev observation :
    Services → ℕ → String → String → String → CanonicalStatus → ℤ → CorrelationKeys → Observation
observation s n provider reference type status amount keys = record {
  provider = provider;
  provider_reference = reference;
  observation_type = type;
  canonical_status = status;
  observed_amount = amount;
  currency = "INR";
  events = [];
  evidence_ids = [];
  correlation_keys = keys;
  provider_event_id = none;
  provider_version = initial_version none;
  observed_at = utc_now s n;
  ingestion_event_id = s.fresh n;
  observation_id = s.fresh n;
}

abbrev pub order_observed :
    Services
    → ℕ
    → String
    → Result Raised (Option MerchantOrder)
    → Result Raised (Option Observation)
order_observed s n order_id (err e) = err e
order_observed s n order_id (ok none) = ok none
order_observed s n order_id (ok (some o)) =
    let status = if o.status == "PAID" then settled else pending in
    ok (
      some
        (observation s n "Merchant" o.id "OrderState" status o.amount (keys (some order_id) none)))

-- `observe_merchant_order`
unfoldable pub observe_merchant_order : Services → String → Run (Option Observation)
observe_merchant_order s order_id =
    ask (λ n. order_observed s n order_id (s.read_merchant_order n order_id))

-- The status of a payment.
abbrev payment_status : String → CanonicalStatus
payment_status raw =
    if raw == "captured"
    then settled
    else if raw == "refunded"
    then refunded
    else if raw == "failed"
    then failed
    else unknown

abbrev pub payment_observed :
    Services → ℕ → Result ProviderFailure ProviderPayment → Result Raised (Option Observation)
payment_observed s n (err client_error) = ok none
payment_observed s n (err network_error) = err unexpected
payment_observed s n (err other_error) = err unexpected
payment_observed s n (ok p) = ok (
    some (
      observation s n "Razorpay" p.id "PAYMENT" (payment_status p.status) p.amount
        (keys p.order_id (some p.id))))

-- `observe_provider_payment`
unfoldable pub observe_provider_payment : Services → String → Run (Option Observation)
observe_provider_payment s payment_id =
    if s.has_provider
    then ask (λ n. payment_observed s n (s.get_payment n payment_id))
    else pure none

abbrev pub refund_observed :
    Services → ℕ → Result ProviderFailure ProviderRefund → Result Raised (Option Observation)
refund_observed s n (err client_error) = ok none
refund_observed s n (err network_error) = err unexpected
refund_observed s n (err other_error) = err unexpected
refund_observed s n (ok r) =
    let status = if r.status == "processed" then refunded else unknown in
    ok (
      some
        (observation s n "Razorpay" r.id "REFUND" status r.amount (keys r.payment_id (some r.id))))

-- `observe_provider_refund`
unfoldable pub observe_provider_refund : Services → String → Run (Option Observation)
observe_provider_refund s refund_id =
    if s.has_provider then ask (λ n. refund_observed s n (s.get_refund n refund_id)) else pure none

abbrev or_type : Option String → String → String
or_type none type = type
or_type (some d) type = if is_empty d then type else d

-- The call that observes again what an observation is of; other providers are not asked.
unfoldable pub observe_again : Services → Observation → Run (Option Observation)
unfolding observe_merchant_order observe_provider_payment observe_provider_refund
observe_again s o =
    if lower o.provider == "razorpay"
    then if contains "REFUND" (upper (or_type o.correlation_keys.domain o.observation_type))
      then observe_provider_refund s o.provider_reference
      else observe_provider_payment s o.provider_reference
    else if lower o.provider == "merchant"
    then observe_merchant_order s o.provider_reference
    else pure none

-- `new_obs and new_obs.canonical_status != obs.canonical_status`
abbrev pub if_changed : Observation → Option Observation → List Observation
if_changed o none = []
if_changed o (some x) = if status_eq x.canonical_status o.canonical_status then [] else x ∷ []

-- The loop: an exception of one fetch is logged, and the next observation taken.
unfoldable pub reobserve : Services → List Observation → Run (List Observation)
unfolding observe_again
reobserve s [] = pure []
reobserve s (o ∷ os) = do
  x ← attempt (observe_again s o) (λ _. pure none)
  xs ← reobserve s os
  pure (if_changed o x ++ xs)
