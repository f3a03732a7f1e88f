-- ===== src/Core/Actuation.antt =====
-- The actuation record of src/domain/actuation/models.py, and the payload and key that
-- src/engine/actuation_key.py makes of an intent. `json.dumps` and SHA-256 are parameters.
use Prim.Native.String.{◌++◌ as join}
use financial_control_engine.Base.{ℕ, String, List, [], ◌∷◌, ◌++◌, Option, none, some}
use financial_control_engine.Base.Int.{ℤ}
use financial_control_engine.Core.Models.{
  RecoveryAction, repair_merchant_state, refund_payment, escalate, RecoveryIntent,
}

-- `class ActuationState`
pub data ActuationState : Type 0 where
  pending success rejected timeout_unknown converged escalated : ActuationState

-- A value in a mutation payload.
pub data PayloadValue : Type 0 where
  number : ℤ → PayloadValue
  text : String → PayloadValue
  null : PayloadValue

-- A mutation payload, in the order of its keys.
abbrev pub MutationPayload : Type 0
MutationPayload = List (String × PayloadValue)

-- `class ActuationRecord`
pub record ActuationRecord : Type 0 where
  pub execution_identity : String
  pub intent_action : String
  pub target_id : String
  pub mutation_parameters_canonical : String
  pub idempotency_key : String
  pub provider : String
  pub state : ActuationState
  pub record_id : String
  pub created_at : ℕ
  pub updated_at : ℕ

abbrev amount_entry : Option ℤ → MutationPayload
amount_entry none = []
amount_entry (some a) = ("amount", number a) ∷ []

abbrev currency_entry : Option String → MutationPayload
currency_entry none = []
currency_entry (some c) = ("currency", text c) ∷ []

abbrev state_value : Option String → PayloadValue
state_value none = null
state_value (some s) = text s

-- The payload of an intent, as the gate and the engine build it alike.
abbrev payload_for : RecoveryAction → RecoveryIntent → MutationPayload
payload_for refund_payment i = amount_entry i.amount ++ currency_entry i.currency
payload_for repair_merchant_state i =
    ("expected_provider_state", state_value i.expected_provider_state) ∷ []
payload_for escalate i = []

unfoldable pub mutation_payload : RecoveryIntent → MutationPayload
mutation_payload i = payload_for i.action i

-- `json.dumps(…, sort_keys=True, separators=(',', ':'))` and `sha256(…).hexdigest()`
pub record Encoders : Type 0 where
  pub dumps : MutationPayload → String
  pub sha256 : String → String

-- `generate_canonical_payload`
abbrev pub generate_canonical_payload : Encoders → MutationPayload → String
generate_canonical_payload enc p = enc.dumps p

-- `generate_idempotency_key`
unfoldable pub generate_idempotency_key : Encoders → String → String → String → String → String
generate_idempotency_key enc identity action target canonical =
    enc.sha256
      (join identity (join ":" (join action (join ":" (join target (join ":" canonical))))))
