-- ===== src/Worker/Loop.antt =====
-- `V2ControlWorker.poll_and_process` and its handlers (src/engine/worker.py), and
-- `V2ReconciliationEngine.reconcile_batch` (src/engine/reconciliation_v2.py). Metrics are left out.
mod Ingesting
unfoldable pub use Ingesting.*
use Prim.Native.String.{◌++◌ as join}
use financial_control_engine.Base.{
  ℕ, ◌+◌, String, ◌==◌, is_empty, starts_with, Bool, true, false, List, [], ◌∷◌, ◌++◌, any, map,
  length, Option, none, some, Result, ok, err, if◌then◌else◌,
}
use financial_control_engine.Base.Int.{ℤ, pos}
use financial_control_engine.Core.Models.{
  Expectation, Observation, ReconciliationResult, discrepancy, DiscrepancyReason,
}
use financial_control_engine.Matching.Controls.{
  evaluate_expectation_centric, evaluate_observation_centric,
}
use financial_control_engine.Lifecycle.{TransitionError}
use financial_control_engine.Incidents.Records.{IncidentRecord, Key}
use financial_control_engine.Incidents.Repository.{Table, try_claim_incident, acquire_lease}
use financial_control_engine.Incidents.Retries.{acquire_matured_retries}
use financial_control_engine.Substrate.Observations.{
  IntegrityError, find_observations, get_observation, get_all_observations,
}
use financial_control_engine.Substrate.Expectations.{find_open, find_open_by_correlation_keys}
use financial_control_engine.Substrate.Results.{
  StoredResult, save_result, get_result, find_latest_discrepancy, reason_value, reason_named,
  is_discrepancy,
}
use financial_control_engine.Substrate.Events.{
  ControlEventType, observation_ingested, discrepancy_detected, verification_succeeded,
  EventPayload, EventRow, publish, poll_pending_events, recover_stale_events, mark_processed,
  mark_failed,
}
use financial_control_engine.Worker.Runs.{
  World, Raised, unexpected, Run, pure, raise, ask, attempt, transact, ◌>>=◌, ◌>>◌,
}
use financial_control_engine.Worker.Services.{Services, or_raise}
use financial_control_engine.Worker.Process.{Task, query, process_investigation}

-- A worker with the settings that it reads.
pub record Worker : Type 0 where
  pub worker_id : String
  pub worker_lease_ttl_seconds : ℕ
  pub event_stale_threshold_seconds : ℕ

abbrev first_id : List String → Result Raised String
first_id [] = err unexpected
first_id (x ∷ xs) = ok x

-- `recon_result.expectation_id or recon_result.observation_ids[0]`
abbrev active_subject : Option String → List String → Result Raised String
active_subject none ids = first_id ids
active_subject (some e) ids = if is_empty e then first_id ids else ok e

abbrev reason_text : Option DiscrepancyReason → String
reason_text none = "UNKNOWN"
reason_text (some r) = reason_value r

abbrev pub process_leased : Services → Worker → StoredResult → Option IncidentRecord → Run Bool
process_leased s v r none = pure false
process_leased s v r (some i) =
    process_investigation s (record { incident = i; discrepancy = r; worker = v.worker_id })

-- The claim, the lease and the investigation of an incident.
unfoldable pub claim_and_process : Services → Worker → StoredResult → Key → Run Bool
unfolding try_claim_incident acquire_lease process_investigation
claim_and_process s v r k = do
  transact s.outage (λ w.
      with_table w
        (try_claim_incident k (join "inc_" (s.fresh w.tick)) (s.clock w.tick) w.database.incidents))
  i ← transact s.outage (λ w. or_unexpected w (
      acquire_lease k v.worker_id v.worker_lease_ttl_seconds (s.clock w.tick) w.database.incidents))
  process_leased s v r i

abbrev pub discrepant : Services → Worker → Option StoredResult → Run Bool
discrepant s v none = pure false
discrepant s v (some r) =
    if is_discrepancy r.result.outcome
    then (ask (λ _. active_subject r.result.expectation_id r.result.observation_ids) >>= λ subject.
        claim_and_process s v r
          (record { subject = subject; reason = reason_text r.result.discrepancy_reason }))
    else pure false

-- `_handle_discrepancy`
unfoldable pub handle_discrepancy : Services → Worker → Option String → Run Bool
unfolding claim_and_process get_result
handle_discrepancy s v none = pure false
handle_discrepancy s v (some id) =
    if is_empty id
    then pure false
    else query s (λ w. get_result id w.results) >>= λ r. discrepant s v r

-- The discrepancy of a retry whose result is not found.
abbrev retried_discrepancy : IncidentRecord → StoredResult
retried_discrepancy i =
    let observed = starts_with "obs" i.active_subject in
    record {
      reconciliation_id = join "rec_retry_" i.incident_id;
      created_at = pos i.created_at;
      result = record {
        expectation_id = if observed then none else some i.active_subject;
        observation_ids = if observed then i.active_subject ∷ [] else [];
        outcome = discrepancy;
        reconciliation_reason = "Retried discrepancy";
        discrepancy_reason = reason_named i.discrepancy_reason;
      };
    }

abbrev or_retried : Option StoredResult → IncidentRecord → StoredResult
or_retried none i = retried_discrepancy i
or_retried (some r) i = r

-- `_handle_matured_retry`
unfoldable pub handle_matured_retry : Services → Worker → IncidentRecord → Run Bool
unfolding find_latest_discrepancy process_investigation starts_with reason_named
handle_matured_retry s v i = do
  r ← query s (λ w. find_latest_discrepancy i.active_subject i.discrepancy_reason w.results)
  process_leased s v (or_retried r i) (some i)

abbrev pub handle : Services → Worker → ControlEventType → EventPayload → Run Bool
handle s v observation_ingested p = handle_observation_ingested s p.observation_id
handle s v discrepancy_detected p = handle_discrepancy s v p.reconciliation_id
handle s v verification_succeeded p = pure true

abbrev pub mark : Services → (String → ℕ → List EventRow → List EventRow) → EventRow → Run Bool
mark s f e = on_events s (λ n rows. (true, f e.event_id (s.clock n) rows))

-- One round of the loop over the events: any exception marks the event as failed.
unfoldable pub process_event : Services → Worker → EventRow → Run Bool
unfolding handle_observation_ingested handle_discrepancy mark_processed mark_failed
process_event s v e =
    attempt (handle s v e.event_type e.payload >> mark s mark_processed e)
      (λ _. mark s mark_failed e)

unfoldable pub process_events : Services → Worker → List EventRow → Run Bool
unfolding process_event
process_events s v [] = pure true
process_events s v (e ∷ es) = do process_event s v e; process_events s v es

unfoldable pub process_retries : Services → Worker → List IncidentRecord → Run Bool
unfolding handle_matured_retry
process_retries s v [] = pure true
process_retries s v (i ∷ is) = do handle_matured_retry s v i; process_retries s v is

-- `poll_and_process`
unfoldable pub poll_and_process : Services → Worker → ℕ → Run ℕ
unfolding process_events process_retries poll_pending_events recover_stale_events
    acquire_matured_retries
poll_and_process s v limit = do
  on_events s (λ n. recover_stale_events v.event_stale_threshold_seconds (s.clock n))
  events ← on_events s (λ n. poll_pending_events limit (s.clock n))
  process_events s v events
  matured ← transact s.outage (λ w. with_table w (
      acquire_matured_retries v.worker_id v.worker_lease_ttl_seconds limit (s.clock w.tick)
        w.database.incidents))
  process_retries s v matured
  pure (length events + length matured)
