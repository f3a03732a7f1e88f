-- ===== src/Worker/Polling.antt =====
-- What `poll_and_process` (src/engine/worker.py) keeps of the mutations and of the actuation records,
-- if each investigation keeps it.
use financial_control_engine.Base.{
  ℕ, ◌≡◌, refl, ap, is_empty, String, ◌==◌, Bool, List, [], ◌∷◌, any, Option, none, some, Result,
  ok, err, ok_injective,
}
use financial_control_engine.Lifecycle.{TransitionError}
use financial_control_engine.Core.Models.{Observation, Expectation}
use financial_control_engine.Incidents.Records.{IncidentRecord, Key}
use financial_control_engine.Incidents.Repository.{Table}
use financial_control_engine.Substrate.Observations.{IntegrityError}
use financial_control_engine.Substrate.Results.{StoredResult, save_result, is_discrepancy}
use financial_control_engine.Substrate.Events.{
  EventRow, ControlEventType, EventPayload, observation_ingested, discrepancy_detected,
  verification_succeeded,
}
use financial_control_engine.Worker.Runs.{World}
use financial_control_engine.Worker.Services.{Services}
use financial_control_engine.Worker.Process.{Task, query, process_investigation}
use financial_control_engine.Worker.Loop.{
  Worker, on_events, with_table, or_unexpected, saved_result, reconcile, reconcile_alone,
  reconcile_expectations, reconcile_unmapped, reconcile_batch, save_results, reconcile_observed,
  ingest, handle_observation_ingested, process_leased, claim_and_process, discrepant,
  handle_discrepancy, handle_matured_retry, handle, process_event, process_events, process_retries,
  poll_and_process,
}
use financial_control_engine.Worker.Logic.{
  Keeps, meets_pure, meets_ask, meets_if, meets_bind, meets_attempt,
}
use financial_control_engine.Worker.Steady.{Over, Alike, transact-Steady}
use financial_control_engine.Worker.Sending.{Property}

table-Alike :
    {A : Type 0} (w : World) (x : A × Table) {a : A} {after : World}
    → with_table w x ≡ ok (a, after)
    → Alike w after
table-Alike {A} w x h = rw (ap (λ (z : A × World). z.1) (ok_injective h)) (refl, refl, refl)

unexpected-Alike :
    {A : Type 0} (w : World) (x : Result TransitionError (A × Table)) {a : A} {after : World}
    → or_unexpected w x ≡ ok (a, after)
    → Alike w after
unexpected-Alike w (err e) h = cc
unexpected-Alike w (ok x) h = table-Alike w x h

result-Alike :
    (w : World) (x : Result IntegrityError (List StoredResult)) {a : Bool} {after : World}
    → saved_result w x ≡ ok (a, after)
    → Alike w after
result-Alike w (err e) h = cc
result-Alike w (ok rows) h = rw (ap (λ (z : Bool × World). z.1) (ok_injective h)) (refl, refl, refl)

module _ (T : Property) (s : Services) where
  query-Keeps : {A : Type 0} (f : World → A) → Keeps (Over T) (query s f)
  query-Keeps {A} f =
      transact-Steady T s.outage _
        (λ w after a e. rw (ap (λ (z : A × World). z.1) (ok_injective e)) (refl, refl, refl))

  events_keep :
      {A : Type 0} (f : ℕ → List EventRow → A × List EventRow) → Keeps (Over T) (on_events s f)
  events_keep {A} f =
      transact-Steady T s.outage _
        (λ w after a e. rw (ap (λ (z : A × World). z.1) (ok_injective e)) (refl, refl, refl))

  expectations_keep : (es : List Expectation) → Keeps (Over T) (reconcile_expectations s es)
  unfolding reconcile_expectations reconcile
  expectations_keep [] = meets_pure _ (λ w p. p)
  expectations_keep (e ∷ es) = meets_bind (query-Keeps _) (λ os.
      meets_bind (meets_ask _ (λ w a p h. p) (λ w p. p))
        (λ r. meets_bind (expectations_keep es) (λ x. meets_pure _ (λ w p. p))))

  alone-Keeps : (o : Observation) → Keeps (Over T) (reconcile_alone s o)
  unfolding reconcile_alone
  alone-Keeps o = meets_ask _ (λ w a p h. p) (λ w p. p)

  unmapped_keep : (mapped os : List Observation) → Keeps (Over T) (reconcile_unmapped s mapped os)
  unfolding reconcile_unmapped
  unmapped_keep mapped [] = meets_pure _ (λ w p. p)
  unmapped_keep mapped (o ∷ os) =
      let mapped_already = any (λ (x : Observation). x.observation_id == o.observation_id) mapped in
      meets_bind (meets_if mapped_already (λ _. meets_pure [] (λ w p. p)) (λ _. alone-Keeps o))
        (λ r. meets_bind (unmapped_keep mapped os) (λ rs. meets_pure _ (λ w p. p)))

  batch-Keeps : Keeps (Over T) (reconcile_batch s)
  unfolding reconcile_batch
  batch-Keeps = meets_bind (query-Keeps _) (λ es. meets_bind (expectations_keep es) (λ x.
      meets_bind (query-Keeps _)
        (λ os. meets_bind (unmapped_keep x.1 os) (λ more. meets_pure _ (λ w p. p)))))

  results_keep : (rs : List StoredResult) → Keeps (Over T) (save_results s rs)
  unfolding save_results
  results_keep [] = meets_pure _ (λ w p. p)
  results_keep (r ∷ rs) =
      meets_bind
        (transact-Steady T s.outage _ (λ w after a e. result-Alike w (save_result r w.results) e))
        (λ _.
          meets_bind
            (meets_if (is_discrepancy r.result.outcome) (λ _. events_keep _)
              (λ _. meets_pure _ (λ w p. p)))
            (λ _. results_keep rs))

  observed_keep :
      (o : Observation) (es : List Expectation) → Keeps (Over T) (reconcile_observed s o es)
  observed_keep o [] = alone-Keeps o
  observed_keep o (e ∷ es) = meets_bind (expectations_keep (e ∷ es)) (λ x. meets_pure _ (λ w p. p))

  ingest-Keeps : (o : Option Observation) → Keeps (Over T) (ingest s o)
  ingest-Keeps none = meets_pure _ (λ w p. p)
  ingest-Keeps (some o) =
      meets_bind (query-Keeps _) (λ es. meets_bind (observed_keep o es) (λ rs. results_keep rs))

  ingested_keep : (id : Option String) → Keeps (Over T) (handle_observation_ingested s id)
  unfolding handle_observation_ingested
  ingested_keep none = meets_bind batch-Keeps (λ rs. results_keep rs)
  ingested_keep (some id) =
      meets_if (is_empty id) (λ _. meets_bind batch-Keeps (λ rs. results_keep rs))
        (λ _. meets_bind (query-Keeps _) (λ o. ingest-Keeps o))

  module _ (v : Worker) (kept : (t : Task) → Keeps (Over T) (process_investigation s t)) where
    leased_keep :
        (r : StoredResult) (i : Option IncidentRecord) → Keeps (Over T) (process_leased s v r i)
    leased_keep r none = meets_pure _ (λ w p. p)
    leased_keep r (some i) = kept _

    claim-Keeps : (r : StoredResult) (k : Key) → Keeps (Over T) (claim_and_process s v r k)
    unfolding claim_and_process
    claim-Keeps r k =
        meets_bind (transact-Steady T s.outage _ (λ w after a e. table-Alike w _ e)) (λ _.
          meets_bind (transact-Steady T s.outage _ (λ w after a e. unexpected-Alike w _ e))
            (λ i. leased_keep r i))

    discrepant-Keeps : (r : Option StoredResult) → Keeps (Over T) (discrepant s v r)
    discrepant-Keeps none = meets_pure _ (λ w p. p)
    discrepant-Keeps (some r) =
        meets_if (is_discrepancy r.result.outcome)
          (λ _. meets_bind (meets_ask _ (λ w a p h. p) (λ w p. p)) (λ subject. claim-Keeps r _))
          (λ _. meets_pure _ (λ w p. p))

    discrepancy-Keeps : (id : Option String) → Keeps (Over T) (handle_discrepancy s v id)
    unfolding handle_discrepancy
    discrepancy-Keeps none = meets_pure _ (λ w p. p)
    discrepancy-Keeps (some id) =
        meets_if (is_empty id) (λ _. meets_pure _ (λ w p. p))
          (λ _. meets_bind (query-Keeps _) (λ r. discrepant-Keeps r))

    handle-Keeps : (type : ControlEventType) (p : EventPayload) → Keeps (Over T) (handle s v type p)
    handle-Keeps observation_ingested p = ingested_keep p.observation_id
    handle-Keeps discrepancy_detected p = discrepancy-Keeps p.reconciliation_id
    handle-Keeps verification_succeeded p = meets_pure _ (λ w p. p)

    event-Keeps : (e : EventRow) → Keeps (Over T) (process_event s v e)
    unfolding process_event
    event-Keeps e =
        meets_attempt (meets_bind (handle-Keeps e.event_type e.payload) (λ _. events_keep _))
          (λ _. events_keep _)

    all_events_keep : (es : List EventRow) → Keeps (Over T) (process_events s v es)
    unfolding process_events
    all_events_keep [] = meets_pure _ (λ w p. p)
    all_events_keep (e ∷ es) = meets_bind (event-Keeps e) (λ _. all_events_keep es)

    retries_keep : (is : List IncidentRecord) → Keeps (Over T) (process_retries s v is)
    unfolding process_retries handle_matured_retry
    retries_keep [] = meets_pure _ (λ w p. p)
    retries_keep (i ∷ is) =
        meets_bind (meets_bind (query-Keeps _) (λ r. leased_keep _ (some i))) (λ _. retries_keep is)

    pub poll-Keeps : (limit : ℕ) → Keeps (Over T) (poll_and_process s v limit)
    unfolding poll_and_process
    poll-Keeps limit = meets_bind (events_keep _) (λ _. meets_bind (events_keep _) (λ events.
        meets_bind (all_events_keep events) (λ _.
          meets_bind (transact-Steady T s.outage _ (λ w after a e. table-Alike w _ e))
            (λ matured. meets_bind (retries_keep matured) (λ _. meets_pure _ (λ w p. p))))))
