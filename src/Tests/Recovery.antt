-- ===== src/Tests/Recovery.antt =====
-- The outbox at concrete messages.
use financial_control_engine.Base.{◌≡◌, refl, [], ◌∷◌, ok, err}
use financial_control_engine.Recovery.Registry.{duplicate_key, record_action_attempt}
use financial_control_engine.Recovery.Outbox.{
  controlled_refund, pending_action, Action, ambiguous, Outbox, new_message, publish_action,
  executable_exists, Dispatched, raised, process_pending,
}
use financial_control_engine.Recovery.Dispatch.{Exclusive, outbox-Exclusive}

abbrev refund : Action
refund = record {
  action_type = controlled_refund;
  idempotency_key = "k1";
  incident_id = "inc_1";
  payload = "{}";
  action_id = "a1";
  status = pending_action;
  created_at = 0;
}

abbrev times_out : Action → Dispatched
times_out a = raised

abbrev one : Outbox
one = new_message refund "m1" 5 ∷ []

published : publish_action refund "m1" 5 [] ≡ ok one
unfolding publish_action
published = refl

again : publish_action refund "m2" 6 one ≡ err executable_exists
unfolding publish_action
again = refl

-- After a time-out the action may be published again, with the same key.
after_time_out :
    publish_action refund "m2" 6 (process_pending times_out one)
    ≡ ok
        (record (new_message refund "m1" 5) { status = ambiguous } ∷ new_message refund "m2" 6 ∷ [])
unfolding publish_action process_pending
after_time_out = refl

outbox-Exclusive_example : Exclusive one × Exclusive (process_pending times_out one)
outbox-Exclusive_example = outbox-Exclusive times_out refund "m1" 5 [] tt published (tt, tt)

-- The registry refuses a second attempt with the key, but not once the id was recorded anew.
registry_run :
    (record_action_attempt refund [] ≡ ok (refund ∷ []))
    × (record_action_attempt (record refund { action_id = "a9" }) (refund ∷ []) ≡ err duplicate_key)
    × (record_action_attempt (record refund { idempotency_key = "k9" }) (refund ∷ [])
        ≡ ok (record refund { idempotency_key = "k9" } ∷ []))
unfolding record_action_attempt
registry_run = (refl, refl, refl)
