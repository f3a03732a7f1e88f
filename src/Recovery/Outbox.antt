-- ===== src/Recovery/Outbox.antt =====
-- `TransactionalOutbox` and `OutboxDispatcher` of src/recovery/outbox.py, with the actions of
-- src/domain/actions/models.py. The lock makes the methods follow one another; the provider is a
-- parameter.
use financial_control_engine.Base.{
  ℕ, String, ◌==◌, Bool, true, false, ◌&&◌, List, [], ◌∷◌, ◌++◌, any, keep, Option, none, Result,
  ok, err, if◌then◌else◌, nat_eq,
}

-- `class ActionType`
pub data ActionType : Type 0 where
  state_repair event_reprocess provider_status_query controlled_refund : ActionType

abbrev type_ordinal : ActionType → ℕ
type_ordinal state_repair = 0
type_ordinal event_reprocess = 1
type_ordinal provider_status_query = 2
type_ordinal controlled_refund = 3

abbrev pub type_eq : ActionType → ActionType → Bool
type_eq a b = nat_eq (type_ordinal a) (type_ordinal b)

-- `class ActionStatus`
pub data ActionStatus : Type 0 where
  pending_action success failed_action : ActionStatus

-- `class Action`, with its payload as JSON text
pub record Action : Type 0 where
  pub action_type : ActionType
  pub idempotency_key : String
  pub incident_id : String
  pub payload : String
  pub action_id : String
  pub status : ActionStatus
  pub created_at : ℕ

-- `class OutboxStatus`
pub data OutboxStatus : Type 0 where
  pending processing dispatched retryable ambiguous : OutboxStatus

-- `class OutboxMessage`
pub record OutboxMessage : Type 0 where
  pub action : Action
  pub status : OutboxStatus
  pub retry_count : ℕ
  pub next_retry_at : Option ℕ
  pub message_id : String
  pub created_at : ℕ

-- `class ConcurrencyError`
pub data ConcurrencyError : Type 0 where
  executable_exists : ConcurrencyError

-- The messages, in the order in which they were published.
abbrev pub Outbox : Type 0
Outbox = List OutboxMessage

abbrev pub is_executable : OutboxStatus → Bool
is_executable pending = true
is_executable processing = true
is_executable dispatched = true
is_executable retryable = false
is_executable ambiguous = false

abbrev pub is_pending : OutboxStatus → Bool
is_pending pending = true
is_pending _ = false

-- The message is executable and for the same type and key.
abbrev pub prevents : Action → OutboxMessage → Bool
prevents a m =
    type_eq m.action.action_type a.action_type
    && m.action.idempotency_key == a.idempotency_key
    && is_executable m.status

abbrev pub new_message : Action → String → ℕ → OutboxMessage
new_message a message_id now = record {
  action = a;
  status = pending;
  retry_count = 0;
  next_retry_at = none;
  message_id = message_id;
  created_at = now;
}

-- `publish_action`, with the fresh message id
unfoldable pub publish_action : Action → String → ℕ → Outbox → Result ConcurrencyError Outbox
publish_action a message_id now outbox =
    if any (prevents a) outbox
    then err executable_exists
    else ok (outbox ++ new_message a message_id now ∷ [])

-- `get_pending_messages`
abbrev pub get_pending_messages : Outbox → List OutboxMessage
get_pending_messages outbox = keep (λ (m : OutboxMessage). is_pending m.status) outbox

-- `update_status`
unfoldable pub update_status : String → OutboxStatus → Outbox → Outbox
update_status message_id s [] = []
update_status message_id s (m ∷ ms) =
    if m.message_id == message_id
    then record m { status = s } ∷ ms
    else m ∷ update_status message_id s ms

-- What `dispatch_action` does: it returns true or false, or it raises.
pub data Dispatched : Type 0 where
  accepted refused raised : Dispatched

abbrev pub status_after : Dispatched → OutboxStatus
status_after accepted = dispatched
status_after refused = retryable
status_after raised = ambiguous

abbrev pub process_message : (Action → Dispatched) → OutboxMessage → Outbox → Outbox
process_message dispatch_action m outbox =
    update_status m.message_id (status_after (dispatch_action m.action))
      (update_status m.message_id processing outbox)

unfoldable pub process_messages : (Action → Dispatched) → List OutboxMessage → Outbox → Outbox
unfolding update_status
process_messages dispatch_action [] outbox = outbox
process_messages dispatch_action (m ∷ ms) outbox =
    process_messages dispatch_action ms (process_message dispatch_action m outbox)

-- `process_pending`
unfoldable pub process_pending : (Action → Dispatched) → Outbox → Outbox
unfolding process_messages
process_pending dispatch_action outbox =
    process_messages dispatch_action (get_pending_messages outbox) outbox
