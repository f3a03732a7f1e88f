-- ===== src/Ingestion/Batches.antt =====
-- `IngestionWorker` of src/ingestion/worker.py, with the callback of scripts/worker_main.py. Logs are left
-- out, and the database is up: it refuses a call only by a constraint. What a call draws or reads of the
-- clock is given by the place of its payload in the batch.
use financial_control_engine.Base.{
  ℕ, ◌+◌, String, ◌==◌, lower, Bool, List, [], ◌∷◌, Option, none, some, Result, ok, err,
  if◌then◌else◌,
}
use financial_control_engine.Core.Models.{Observation, Evidence}
use financial_control_engine.Substrate.Observations.{IntegrityError}
use financial_control_engine.Substrate.Events.{EventRow, observation_ingested, publish}
use financial_control_engine.Ingestion.Payloads.{IngestionPayload, RawPayload}
use financial_control_engine.Ingestion.Adapter.{ValueError, Drawn, normalize_payload}
use financial_control_engine.Ingestion.Repository.{
  Payloads, Ingress, claim_pending_payloads, mark_payload, save_normalized_payload,
}

-- The tables of the ingestion, and the control events that it publishes.
pub record Store : Type 0 where
  pub ingress : Ingress
  pub events : List EventRow

-- What can be raised for a payload.
pub data Failure : Type 0 where
  no_adapter : String → Failure
  not_normalized not_saved not_published : Failure

-- A worker: `str(e)`, the digest of a payload, and what is drawn, read and answered for each payload.
-- `picks` is what the query of the claim selects of, and `publishes n` whether the callback of the n-th payload succeeds.
pub record IngestionWorker : Type 0 where
  pub worker_id : String
  pub text_of : Failure → String
  pub digest : RawPayload → String
  pub draw : ℕ → Drawn
  pub event_id : ℕ → String
  pub clock : ℕ → ℕ
  pub publishes : ℕ → Bool
  pub picks : IngestionPayload → Bool

abbrev pub Outcome : Type 0
Outcome = Option Failure × Store

-- `_on_obs_persisted`
abbrev pub on_persisted : IngestionWorker → ℕ → Observation → Store → Outcome
on_persisted v n o g =
    if v.publishes n
    then (
      none,
      record g {
        events =
            publish observation_ingested
              (record { observation_id = some o.observation_id; reconciliation_id = none })
              (v.event_id n) (v.clock n) g.events;
      },
    )
    else (some not_published, g)

-- What was saved stays saved if the callback raises.
abbrev pub after_save :
    IngestionWorker → ℕ → Observation → Store → Result IntegrityError Ingress → Outcome
after_save v n o g (err e) = (some not_saved, g)
after_save v n o g (ok saved) = on_persisted v n o (record g { ingress = saved })

abbrev pub after_normalize :
    IngestionWorker
    → ℕ
    → IngestionPayload
    → Store
    → Result ValueError (Observation × Evidence)
    → Outcome
after_normalize v n p g (err e) = (some not_normalized, g)
after_normalize v n p g (ok (o, e)) =
    after_save v n o g (save_normalized_payload p.payload_id e o (v.clock n) g.ingress)

-- The body of the `try`: only the adapter of one provider is registered.
unfoldable pub ingest_payload : IngestionWorker → ℕ → IngestionPayload → Store → Outcome
unfolding normalize_payload save_normalized_payload publish lower
ingest_payload v n p g =
    if lower p.provider == "razorpay"
    then after_normalize v n p g (normalize_payload v.digest (v.draw n) p.raw_payload)
    else (some (no_adapter p.provider), g)

abbrev pub with_payloads : Payloads → Store → Store
with_payloads rows g = record g { ingress = record g.ingress { payloads = rows } }

-- The `except` clause, and the count of what was processed.
abbrev pub concluded : IngestionWorker → ℕ → IngestionPayload → Outcome → ℕ × Store
concluded v n p (none, g) = (1, g)
concluded v n p (some e, g) = (
  0,
  with_payloads (mark_payload p.payload_id (some (v.text_of e)) (v.clock n) g.ingress.payloads) g,
)

abbrev pub counted : ℕ → ℕ × Store → ℕ × Store
counted k (count, g) = (k + count, g)

-- The loop over the payloads.
unfoldable pub process_payloads : IngestionWorker → ℕ → Payloads → Store → ℕ × Store
unfolding ingest_payload mark_payload
process_payloads v n [] g = (0, g)
process_payloads v n (p ∷ ps) g =
    let (k, after) = concluded v n p (ingest_payload v n p g) in
    counted k (process_payloads v (n + 1) ps after)

-- `process_batch`, at the time `now`
unfoldable pub process_batch : IngestionWorker → ℕ → ℕ → ℕ → Store → ℕ × Store
unfolding process_payloads claim_pending_payloads
process_batch v limit lease_seconds now g =
    let (claimed, rows) =
      claim_pending_payloads v.worker_id v.picks limit lease_seconds now g.ingress.payloads in
    process_payloads v 0 claimed (with_payloads rows g)
