-- ===== src/Worker/Verifier.antt =====
-- `DeterministicVerifier.verify` of src/investigation/verifier.py.
use Prim.Native.String.{◌++◌ as join}
use financial_control_engine.Base.{
  String, ◌==◌, is_empty, lower, List, [], ◌∷◌, Option, none, some, if◌then◌else◌,
}
use financial_control_engine.Core.Models.{Expectation, Observation}
use financial_control_engine.Investigation.Context.{InvestigationContext}
use financial_control_engine.Investigation.Hypotheses.{
  CausalHypothesis, InvestigationDisposition, verification_proposed, investigation_exhausted,
  VerificationIntent, VerificationResult, rejected,
}
use financial_control_engine.Worker.Runs.{Run, pure, ask, ◌>>=◌}
use financial_control_engine.Worker.Services.{Services}

abbrev first_provider : List Observation → String
first_provider [] = ""
first_provider (o ∷ os) = o.provider

abbrev or_observed : Option String → List Observation → String
or_observed none os = first_provider os
or_observed (some p) os = if is_empty p then first_provider os else p

abbrev expected_provider : Option Expectation → Option String
expected_provider none = none
expected_provider (some e) = e.correlation_keys.provider

-- The provider that is asked, of the trusted context alone; the empty text is none.
unfoldable pub routed_provider : InvestigationContext → String
routed_provider c = or_observed (expected_provider c.expectation) c.observations

abbrev refused : VerificationIntent → String → VerificationResult
refused i reason = record {
  intent = i;
  status = rejected;
  evidence_ids = [];
  new_evidence = [];
  new_observations = [];
  failure_reason = some reason;
}

-- One round of the loop.
unfoldable pub verify_intent :
    Services → InvestigationContext → VerificationIntent → Run VerificationResult
unfolding routed_provider
verify_intent s c i =
    if is_empty (routed_provider c)
    then pure (refused i "MISSING_PARAMETERS")
    else if lower (routed_provider c) == "razorpay"
    then ask (λ n. s.query_provider n i c)
    else pure (refused i (join "Unsupported provider: " (routed_provider c)))

unfoldable pub verify_intents :
    Services → InvestigationContext → List VerificationIntent → Run (List VerificationResult)
unfolding verify_intent
verify_intents s c [] = pure []
verify_intents s c (i ∷ is) = do r ← verify_intent s c i; rs ← verify_intents s c is; pure (r ∷ rs)

abbrev pub verify_proposed :
    InvestigationDisposition
    → Services
    → InvestigationContext
    → List VerificationIntent
    → Run (List VerificationResult)
verify_proposed investigation_exhausted s c is = pure []
verify_proposed verification_proposed s c is = verify_intents s c is

-- `verify`
unfoldable pub verify :
    Services → CausalHypothesis → InvestigationContext → Run (List VerificationResult)
unfolding verify_intents
verify s h c = verify_proposed h.disposition s c h.verification_intents
