-- ===== src/Worker/Services.antt =====
-- What the worker is run with: the code outside of the repository that it calls, and the readings of
-- the environment. Each takes the number of the call, so that no two calls need agree.
use financial_control_engine.Base.{
  ℕ, String, Bool, true, false, List, [], ◌∷◌, Option, none, some, Result, ok, err,
}
use financial_control_engine.Base.Int.{ℤ, pos}
use financial_control_engine.Core.Models.{
  Datetime, aware, Expectation, Observation, ReconciliationOutcome, match, discrepancy,
  ReconciliationResult,
}
use financial_control_engine.Core.Actuation.{Encoders}
use financial_control_engine.Matching.Controls.{
  evaluate_expectation_centric, evaluate_observation_centric,
}
use financial_control_engine.Investigation.Context.{AgentInput, InvestigationContext}
use financial_control_engine.Investigation.Hypotheses.{
  CausalHypothesis, RawOutput, VerificationIntent, VerificationResult,
}
use financial_control_engine.Worker.Runs.{Raised, unexpected, Run, ask}

-- How a call of the provider's interface fails: `ProviderClientError`, `ProviderNetworkError` or
-- another exception.
pub data ProviderFailure : Type 0 where
  client_error network_error other_error : ProviderFailure

-- An order as the merchant's system answers it.
pub record MerchantOrder : Type 0 where
  pub id : String
  pub status : String
  pub amount : ℤ

-- A payment as the provider answers it.
pub record ProviderPayment : Type 0 where
  pub id : String
  pub order_id : Option String
  pub status : String
  pub amount : ℤ

-- A refund as the provider answers it.
pub record ProviderRefund : Type 0 where
  pub id : String
  pub payment_id : Option String
  pub status : String
  pub amount : ℤ

pub record Services : Type 0 where
  pub clock : ℕ → ℕ
  pub fresh : ℕ → String
  pub outage : ℕ → Bool
  pub encoders : Encoders
  pub str : ℤ → String
  pub iso : Datetime → String
  pub dump : CausalHypothesis → String
  pub load : String → Option RawOutput
  pub investigate : ℕ → AgentInput → Result Raised CausalHypothesis
  pub query_provider :
      ℕ → VerificationIntent → InvestigationContext → Result Raised VerificationResult
  pub has_provider : Bool
  pub read_merchant_order : ℕ → String → Result Raised (Option MerchantOrder)
  pub get_payment : ℕ → String → Result ProviderFailure ProviderPayment
  pub get_refund : ℕ → String → Result ProviderFailure ProviderRefund
  pub create_refund : ℕ → String → ℤ → String → String → Result ProviderFailure (Unit {0})
  pub update_merchant_order : ℕ → String → String → Option String → Result Raised String

-- The reading of the clock, as an aware time.
abbrev pub utc_now : Services → ℕ → Datetime
utc_now s n = aware (pos (s.clock n))

abbrev pub or_raise : {A : Type 0} → Option A → Result Raised A
or_raise none = err unexpected
or_raise (some a) = ok a

abbrev pub is_match : ReconciliationOutcome → Bool
is_match match = true
is_match discrepancy = false

abbrev pub matched : Result Raised ReconciliationResult → Result Raised Bool
matched (err e) = err e
matched (ok r) = ok (is_match r.outcome)

-- `evaluate_expectation_centric(…).outcome == MATCH`
unfoldable pub reconciles : Services → Expectation → List Observation → Run Bool
reconciles s e observations =
    ask (λ n.
      matched (or_raise (evaluate_expectation_centric s.str e observations (pos (s.clock n)))))

-- The evaluation of the first observation, where there is no expectation: it raises on the empty list,
-- and what `evaluate_observation_centric` answers is a discrepancy or nothing.
abbrev pub outcome_matches : Option ReconciliationResult → Bool
outcome_matches none = false
outcome_matches (some r) = is_match r.outcome

abbrev pub first_matches : List Observation → Result Raised Bool
first_matches [] = err unexpected
first_matches (o ∷ os) = ok (outcome_matches (evaluate_observation_centric o []))

abbrev pub reconciles_with : Services → Option Expectation → List Observation → Run Bool
reconciles_with s (some e) observations = reconciles s e observations
reconciles_with s none observations = ask (λ _. first_matches observations)

-- The reconciliation of a context with the observations that are known so far.
unfoldable pub reconciles_context : Services → InvestigationContext → List Observation → Run Bool
unfolding reconciles evaluate_observation_centric
reconciles_context s c observations = reconciles_with s c.expectation observations
