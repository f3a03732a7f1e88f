-- ===== src/Tests/Ingestion.antt =====
-- The ingestion at concrete payloads: those of a payment that is authorized and then captured.
use financial_control_engine.Base.{
  ℕ, String, lower, contains, zero, suc, arith, ◌≡◌, refl, true, false, List, [], ◌∷◌, any, map,
  none, some, ok,
}
use financial_control_engine.Base.Int.{pos}
use financial_control_engine.Core.Models.{Observation, Evidence, aware}
use financial_control_engine.Substrate.Rows.{from_observation, from_evidence}
use financial_control_engine.Substrate.Observations.{save_observation, save_evidence, upsert}
use financial_control_engine.Worker.Runs.{World, next}
use financial_control_engine.Worker.Loop.{handle_observation_ingested}
use financial_control_engine.Ingestion.Payloads.{
  Entity, RawPayload, IngestionPayload, pending, failed, processed, whole, malformed,
}
use financial_control_engine.Lifecycle.{investigating}
use financial_control_engine.Tests.Worker.{world, services}
use financial_control_engine.Ingestion.Adapter.{
  observation_from, evidence_from, Drawn, normalize_payload, from_timestamp,
}
use financial_control_engine.Ingestion.Repository.{
  Payloads, Ingress, normalized_row, save_payload, claim_first, claim_pending_payloads,
  mark_payload, save_normalized_payload,
}
use financial_control_engine.Ingestion.Batches.{
  Store, IngestionWorker, ingest_payload, process_payloads, process_batch,
}
use financial_control_engine.Ingestion.Agreement.{
  Call, deliver, claim, mark, call, all_calls, all_memory_calls, mirror, memory_agrees, everything,
}
use financial_control_engine.Ingestion.Exclusive.{claims, claimed_once}
use financial_control_engine.Ingestion.Redelivery.{Repeats, redelivered}
use financial_control_engine.Ingestion.Finishing.{is_finished, batch_finishes}
use financial_control_engine.Ingestion.Updates.{later_status_lost}
use financial_control_engine.Ingestion.Unheard.{update_unheard}

abbrev entity : String → Entity
entity status = record {
  id = some "pay_1";
  payment_id = none;
  order_id = some "order_1";
  receipt = none;
  status = some status;
  amount = whole (pos 700);
  currency = some "INR";
  created_at = some (pos 5);
}

abbrev raw : String → RawPayload
raw status = record {
  event_id = none;
  event = some "payment";
  root = entity status;
  payment = some (entity status);
  refund = none;
}

abbrev payload : String → String → String → IngestionPayload
payload id key status = record {
  provider = "razorpay";
  event_type = "payment";
  raw_payload = raw status;
  payload_hash = status;
  idempotency_key = key;
  payload_id = id;
  status = pending;
  lease_owner = none;
  lease_expires_at = none;
  created_at = 0;
  processed_at = none;
  error_message = none;
}

abbrev authorized : IngestionPayload
authorized = payload "p1" "k1" "authorized"

abbrev captured : IngestionPayload
captured = payload "p2" "k2" "Captured"

-- A delivery, a claim by each of two workers, the first payload again under a new id, and its end.
abbrev calls : List Call
calls =
    deliver authorized
    ∷ claim "w1" everything 10 30 100
    ∷ deliver captured
    ∷ claim "w2" everything 10 30 200
    ∷ deliver (payload "p3" "k1" "authorized")
    ∷ mark "p1" none 300
    ∷ claim "w3" everything 10 30 400
    ∷ []

memory_agrees_example :
    let (answers, after) = all_calls calls [] in
    all_memory_calls calls (mirror []) ≡ (answers, mirror after)
unfolding all_calls call save_payload claim_pending_payloads claim_first mark_payload
memory_agrees_example = memory_agrees calls [] tt (
  refl,
  ((refl, omega arith), (refl, ((refl, omega arith), (refl, (tt, ((refl, omega arith), tt)))))),
)

-- The worker w2 is given the second payload only, and the delivery again is answered with the first.
claims_run :
    claims "p1"
      (call
        (claim "w2" everything 10 30 200)
        (all_calls
          (deliver authorized ∷ claim "w1" everything 10 30 100 ∷ deliver captured ∷ [])
          []).1).0
    ≡ false
unfolding all_calls call save_payload claim_pending_payloads claim_first
claims_run = refl

abbrev delivered : Payloads
delivered = authorized ∷ captured ∷ []

-- After the claim: another claim within the lease, and a mark.
abbrev meanwhile : List Call
meanwhile =
    claim "w2" everything 10 30 200
    ∷ mark "p1" (some "failed") 300
    ∷ claim "w2" everything 10 30 400
    ∷ []

claimed_once_example :
    any
      (claims "p1")
      (all_calls meanwhile (claim_pending_payloads "w1" everything 1 30 100 delivered).1).0
    ≡ false
unfolding claim_pending_payloads claim_first
claimed_once_example =
    claimed_once "w1" everything 1 30 100 delivered meanwhile "p1" (refl, (refl, tt)) refl
      (omega arith, (tt, (omega arith, tt)))

redelivered_example :
    let later = (all_calls meanwhile delivered).1 in
    Repeats "p2" later (save_payload (payload "p4" "k2" "captured") later)
unfolding save_payload
redelivered_example =
    redelivered captured captured (payload "p4" "k2" "captured") true (authorized ∷ []) delivered
      meanwhile refl refl refl

abbrev drawn : String → Drawn
drawn id = record { evidence_id = id; observation_id = id; ingestion_event_id = id; now = pos 9 }

abbrev digest : RawPayload → String
digest r = "d"

-- The ids of the n-th payload of a batch.
abbrev nth_id : ℕ → String
nth_id zero = "o1"
nth_id (suc n) = "o2"

abbrev worker : IngestionWorker
worker = record {
  worker_id = "w1";
  text_of = λ e. "raised";
  digest = digest;
  draw = λ n. drawn (nth_id n);
  event_id = nth_id;
  clock = λ n. 100;
  publishes = λ n. true;
  picks = everything;
}

abbrev broken : IngestionPayload
broken = record (payload "p0" "k0" "authorized") {
  raw_payload = record (raw "authorized") {
    payment = some (record (entity "authorized") { amount = malformed });
  };
}

abbrev store : Store
store = record {
  ingress = record { payloads = broken ∷ delivered; evidence = []; observations = [] };
  events = [];
}

batch_finishes_example :
    is_finished "p0" (process_batch worker 10 30 100 store).1.ingress.payloads ≡ true
unfolding claim_pending_payloads claim_first
batch_finishes_example = batch_finishes worker 10 30 100 store "p0" refl

-- The broken payload fails, and the others are processed.
batch_run :
    let (count, after) = process_batch worker 10 30 100 store in
    (count ≡ 2)
    × (map (λ (p : IngestionPayload). p.status) after.ingress.payloads
        ≡ failed ∷ processed ∷ processed ∷ [])
unfolding process_batch process_payloads ingest_payload claim_pending_payloads claim_first
    mark_payload normalize_payload from_timestamp save_normalized_payload save_observation upsert
    from_observation lower
batch_run = (refl, refl)

abbrev seen : String → String → Observation
seen status id = observation_from (drawn id) (raw status) (pos 5000000) (pos 700)

abbrev evidence : String → String → Evidence
evidence status id = evidence_from digest (drawn id) (raw status) (pos 5000000)

abbrev after_first : Ingress
after_first = record {
  payloads = normalized_row 100 authorized ∷ captured ∷ [];
  evidence = from_evidence (evidence "authorized" "o1") ∷ [];
  observations = from_observation (seen "authorized" "o1") ∷ [];
}

later_status_lost_example :
    save_normalized_payload "p2" (evidence "Captured" "o2") (seen "Captured" "o2") 200 after_first
    ≡ ok (record after_first {
      payloads = normalized_row 100 authorized ∷ normalized_row 200 captured ∷ [];
      evidence = save_evidence (evidence "Captured" "o2") after_first.evidence;
    })
unfolding normalize_payload from_timestamp save_normalized_payload save_observation upsert
    from_observation save_evidence from_evidence
later_status_lost_example =
    later_status_lost digest (drawn "o1") (drawn "o2") (raw "authorized") (raw "Captured")
      (seen "authorized" "o1") (seen "Captured" "o2") (evidence "authorized" "o1")
      (evidence "Captured" "o2") "p1" "p2" 100 200
      (record { payloads = delivered; evidence = []; observations = [] }) after_first
      (record {
        created = pos 5;
        same_reference = refl;
        first_created = refl;
        later_created = refl;
        is_set = refl;
      })
      refl refl refl

abbrev newer : Observation
newer = record (seen "Captured" "o2") { observed_at = aware (pos 9000000) }

abbrev updated : World
updated = record (world investigating) {
  observations = record (from_observation newer) { observation_id = "o1" } ∷ [];
}

update_unheard_example : (handle_observation_ingested services (some "o2") updated).1 ≡ next updated
unfolding save_observation upsert from_observation contains
update_unheard_example =
    update_unheard services updated newer (from_observation (seen "authorized" "o1") ∷ []) refl refl
      refl refl
