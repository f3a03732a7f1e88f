-- ===== src/Tests/Substrate.antt =====
-- The repositories of the substrate at concrete rows.
use financial_control_engine.Base.{
  ℕ, String, ◌≡◌, refl, true, false, List, [], ◌∷◌, none, some, ok, err, find,
}
use financial_control_engine.Base.Int.{pos}
use financial_control_engine.Core.Models.{
  settled, refunded, CanonicalStatus, Observation, aware, CorrelationKeys,
}
use financial_control_engine.Substrate.Rows.{ObservationRow, from_observation}
use financial_control_engine.Substrate.Observations.{
  unique_violation, same_version, save_observation, upsert,
}
use financial_control_engine.Substrate.Reads.{saved_then_read}
use financial_control_engine.Substrate.Observations.{get_observation}
use financial_control_engine.Substrate.Upserts.{Succeeds, save_observation-Succeeds}
use financial_control_engine.Substrate.Events.{
  EventRow, observation_ingested, pending, poll_pending_events,
}
use financial_control_engine.Substrate.Polls.{is_polled}

abbrev keys : CorrelationKeys
keys = record {
  internal_ref = some "order_1";
  provider_ref = none;
  provider = none;
  domain = none;
  observation_type = none;
}

abbrev payment : CanonicalStatus → ℕ → String → Observation
payment status at id = record {
  provider = "razorpay";
  provider_reference = "pay_1";
  observation_type = "PAYMENT";
  canonical_status = status;
  observed_amount = pos 700;
  currency = "INR";
  events = [];
  evidence_ids = id ∷ [];
  correlation_keys = keys;
  provider_event_id = none;
  provider_version = some "";
  observed_at = aware (pos at);
  ingestion_event_id = id;
  observation_id = id;
}

abbrev first : List ObservationRow
first = from_observation (payment settled 5 "o1") ∷ []

-- The row of the second save: its id is that of the first.
abbrev second : ObservationRow
second = record (from_observation (payment refunded 7 "o2")) { observation_id = "o1" }

update_run : save_observation (payment refunded 7 "o2") first ≡ ok (second ∷ [])
unfolding save_observation upsert from_observation
update_run = refl

-- An older observation is ignored, and one with the id of another row is refused.
stale_run : save_observation (payment refunded 3 "o2") first ≡ ok first
unfolding save_observation upsert from_observation
stale_run = refl

refused_run :
    save_observation (record (payment settled 9 "o1") { provider_reference = "pay_2" }) first
    ≡ err unique_violation
unfolding save_observation upsert from_observation
refused_run = refl

save_observation-Succeeds_example :
    (x : ObservationRow) × (find (same_version second) (second ∷ []) ≡ some x)
    × Succeeds (from_observation (payment settled 5 "o1")) x
unfolding save_observation upsert from_observation
save_observation-Succeeds_example =
    save_observation-Succeeds (payment refunded 7 "o2") second first (second ∷ []) refl refl

-- A capture with an event in it, which is not read again.
abbrev captured : Observation
captured = record (payment settled 5 "o1") {
  events =
      record { event_type = "CAPTURED"; amount = none; currency = none; timestamp = aware (pos 5) }
      ∷ [];
}

saved_then_read_example : get_observation "o1" first ≡ some (payment settled 5 "o1")
unfolding save_observation upsert from_observation
saved_then_read_example = saved_then_read captured [] first refl refl

abbrev event : String → ℕ → EventRow
event id at = record {
  event_id = id;
  event_type = observation_ingested;
  payload = record { observation_id = none; reconciliation_id = none };
  status = pending;
  created_at = at;
  leased_at = none;
  processed_at = none;
}

abbrev queue : List EventRow
queue = event "e1" 3 ∷ event "e2" 1 ∷ event "e3" 2 ∷ []

poll_run :
    (is_polled (poll_pending_events 2 9 queue).0 "e1" ≡ false)
    × (is_polled (poll_pending_events 2 9 queue).0 "e2" ≡ true)
unfolding poll_pending_events
poll_run = (refl, refl)
