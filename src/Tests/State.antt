-- ===== src/Tests/State.antt =====
-- The state engine on a query that found nothing and a webhook that came late.
use financial_control_engine.Base.{
  ◌≡◌, refl, String, [], ◌∷◌, Option, none, some, ok, All, upper, text_ne,
}
use mathlib.Core.List.{Permᴰ}
use financial_control_engine.Base.Int.{ℤ, pos}
use financial_control_engine.StateEngine.Models
use financial_control_engine.StateEngine.Models.{
  captured, refunded, verified, unknown, contradicted, executed, not_executed, EntityType, payment,
  refund_intent, ProviderObservation, Payload, ReconstructedState, parse_financial_state,
}
use financial_control_engine.StateEngine.Reconstruct.{reconstruct_state}
use financial_control_engine.StateEngine.Execution.{ShowsNoExecution, not_executed_unseen}
use financial_control_engine.StateEngine.ArrivalOrder.{reconstruct_state-perm}

abbrev payload_of : Option String → Option String → ℤ → Payload
payload_of status confidence n = record {
  status = status;
  query_confidence = confidence;
  execution_state = none;
  provider_sequence = some n;
  provider_timestamp = none;
  amount = none;
  currency = none;
}

abbrev pub observation : String → Payload → ProviderObservation
observation id payload = record {
  provider = "razorpay";
  event_id = id;
  entity_type = "REFUND_INTENT";
  entity_id = "ri_1";
  event_type = "refund";
  payload = payload;
  id = id;
  created_at = some (pos 7);
}

abbrev pub found_nothing : ProviderObservation
found_nothing = observation "o1" (payload_of none (some "AUTHORITATIVE_NOT_EXECUTED") (pos 1))

abbrev pub found_execution : ProviderObservation
found_execution = observation "o2" (payload_of none (some "AUTHORITATIVE_EXECUTED") (pos 2))

abbrev webhook_refunded : ProviderObservation
webhook_refunded = observation "o3" (payload_of (some "refunded") none (pos 3))

abbrev webhook_failed : ProviderObservation
webhook_failed = observation "o4" (payload_of (some "failed") none (pos 4))

abbrev pub absent_state : ReconstructedState
absent_state = record {
  entity_type = refund_intent;
  entity_id = "ri_1";
  observed_financial_state = none;
  knowledge_state = verified;
  execution = some not_executed;
  observation_ids = "o1" ∷ [];
  reconstructed_at = pos 9;
}

abbrev refunded_state : ReconstructedState
refunded_state = record {
  entity_type = refund_intent;
  entity_id = "ri_1";
  observed_financial_state = some refunded;
  knowledge_state = verified;
  execution = some executed;
  observation_ids = "o1" ∷ "o3" ∷ [];
  reconstructed_at = pos 9;
}

abbrev clash_state : ReconstructedState
clash_state = record {
  entity_type = refund_intent;
  entity_id = "ri_1";
  observed_financial_state = some Models.failed;
  knowledge_state = contradicted;
  execution = none;
  observation_ids = "o3" ∷ "o4" ∷ [];
  reconstructed_at = pos 9;
}

pub absent_reconstructed :
    reconstruct_state refund_intent "ri_1" (found_nothing ∷ []) (pos 9) ≡ ok absent_state
unfolding reconstruct_state
absent_reconstructed = refl

refund_reconstructed :
    reconstruct_state refund_intent "ri_1" (webhook_refunded ∷ found_nothing ∷ []) (pos 9)
    ≡ ok refunded_state
unfolding reconstruct_state parse_financial_state upper
refund_reconstructed = refl

clash_reconstructed :
    reconstruct_state refund_intent "ri_1" (webhook_failed ∷ webhook_refunded ∷ []) (pos 9)
    ≡ ok clash_state
unfolding reconstruct_state parse_financial_state upper
clash_reconstructed = refl

not_executed_unseen_example : All ShowsNoExecution (found_nothing ∷ [])
not_executed_unseen_example =
    not_executed_unseen refund_intent "ri_1" (found_nothing ∷ []) (pos 9) absent_reconstructed refl

reconstruct_state-perm_example :
    reconstruct_state refund_intent "ri_1" (found_nothing ∷ webhook_refunded ∷ []) (pos 9)
    ≡ ok refunded_state
reconstruct_state-perm_example =
    reconstruct_state-perm refund_intent "ri_1" (pos 9) (Permᴰ.swap refl refl)
      ((text_ne "o3" "o1" refl, tt), (tt, tt)) refund_reconstructed
