-- ===== src/Ingestion/Payloads.antt =====
-- The payloads of src/domain/ingestion/models.py, and of a provider's payload what is read of it: a
-- missing key, a null and the empty text are told apart where the code tells them apart.
use financial_control_engine.Base.{ℕ, String, Option}
use financial_control_engine.Base.Int.{ℤ}

-- `int(entity.get("amount", 0))`: what cannot be read as an integer raises.
pub data Amount : Type 0 where
  missing malformed : Amount
  whole : ℤ → Amount

-- What is read of an entity.
pub record Entity : Type 0 where
  pub id : Option String
  pub payment_id : Option String
  pub order_id : Option String
  pub receipt : Option String
  pub status : Option String
  pub amount : Amount
  pub currency : Option String
  pub created_at : Option ℤ

-- A payload: the entity at its root, and those of the sections `payload.payment.entity` and
-- `payload.refund.entity`.
pub record RawPayload : Type 0 where
  pub event_id : Option String
  pub event : Option String
  pub root : Entity
  pub payment : Option Entity
  pub refund : Option Entity

-- `class PayloadProcessingStatus`
pub data PayloadProcessingStatus : Type 0 where
  pending processing processed failed duplicate : PayloadProcessingStatus

-- `class IngestionPayload`
pub record IngestionPayload : Type 0 where
  pub provider : String
  pub event_type : String
  pub raw_payload : RawPayload
  pub payload_hash : String
  pub idempotency_key : String
  pub payload_id : String
  pub status : PayloadProcessingStatus
  pub lease_owner : Option String
  pub lease_expires_at : Option ℕ
  pub created_at : ℕ
  pub processed_at : Option ℕ
  pub error_message : Option String
