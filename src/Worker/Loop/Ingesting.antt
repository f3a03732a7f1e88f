-- ===== src/Worker/Loop/Ingesting.antt =====
-- The reconciliations of src/engine/worker.py and src/engine/reconciliation_v2.py: what an ingested
-- observation leads to.
use financial_control_engine.Base.{
  ℕ, String, ◌==◌, is_empty, Bool, true, List, [], ◌∷◌, ◌++◌, any, Option, none, some, Result, ok,
  err, if◌then◌else◌,
}
use financial_control_engine.Base.Int.{pos}
use financial_control_engine.Core.Models.{Expectation, Observation, ReconciliationResult}
use financial_control_engine.Matching.Controls.{
  evaluate_expectation_centric, evaluate_observation_centric,
}
use financial_control_engine.Lifecycle.{TransitionError}
use financial_control_engine.Incidents.Repository.{Table}
use financial_control_engine.Substrate.Observations.{
  IntegrityError, find_observations, get_observation, get_all_observations,
}
use financial_control_engine.Substrate.Expectations.{find_open, find_open_by_correlation_keys}
use financial_control_engine.Substrate.Results.{StoredResult, save_result, is_discrepancy}
use financial_control_engine.Substrate.Events.{discrepancy_detected, EventRow, publish}
use financial_control_engine.Worker.Runs.{
  World, Raised, unexpected, Run, pure, ask, transact, ◌>>=◌, ◌>>◌,
}
use financial_control_engine.Worker.Services.{Services}
use financial_control_engine.Worker.Process.{query}

-- A transaction on the events, the results or the incidents, that returns a value.
abbrev pub on_events : {A : Type 0} → Services → (ℕ → List EventRow → A × List EventRow) → Run A
on_events s f =
    transact s.outage (λ w. let (a, rows) = f w.tick w.events in ok (a, record w { events = rows }))

abbrev pub with_table : {A : Type 0} → World → A × Table → Result Raised (A × World)
with_table w (a, rows) = ok (a, record w { database = record w.database { incidents = rows } })

abbrev pub or_unexpected :
    {A : Type 0} → World → Result TransitionError (A × Table) → Result Raised (A × World)
or_unexpected w (err e) = err unexpected
or_unexpected w (ok x) = with_table w x

-- The result of a control, as it is created.
abbrev stamped : Services → ℕ → ReconciliationResult → StoredResult
stamped s n r = record { reconciliation_id = s.fresh n; created_at = pos (s.clock n); result = r }

abbrev stamped_or_raise : Services → ℕ → Option ReconciliationResult → Result Raised StoredResult
stamped_or_raise s n none = err unexpected
stamped_or_raise s n (some r) = ok (stamped s n r)

-- `evaluate_expectation_centric(exp, candidates)`
unfoldable pub reconcile : Services → Expectation → List Observation → Run StoredResult
unfolding evaluate_expectation_centric
reconcile s e os =
    ask (λ n. stamped_or_raise s n (evaluate_expectation_centric s.str e os (pos (s.clock n))))

abbrev stamped_list : Services → ℕ → Option ReconciliationResult → List StoredResult
stamped_list s n none = []
stamped_list s n (some r) = stamped s n r ∷ []

-- `evaluate_observation_centric(obs, [])`, as a list of the result
unfoldable pub reconcile_alone : Services → Observation → Run (List StoredResult)
unfolding evaluate_observation_centric
reconcile_alone s o = ask (λ n. ok (stamped_list s n (evaluate_observation_centric o [])))

-- The results of some expectations, with the candidates that were mapped.
unfoldable pub reconcile_expectations :
    Services → List Expectation → Run (List StoredResult × List Observation)
unfolding reconcile find_observations
reconcile_expectations s [] = pure ([], [])
reconcile_expectations s (e ∷ es) = do
  os ← query s (λ w. find_observations e.correlation_keys w.observations)
  r ← reconcile s e os
  (rs, mapped) ← reconcile_expectations s es
  pure (r ∷ rs, os ++ mapped)

unfoldable pub reconcile_unmapped :
    Services → List Observation → List Observation → Run (List StoredResult)
unfolding reconcile_alone
reconcile_unmapped s mapped [] = pure []
reconcile_unmapped s mapped (o ∷ os) = do
  r ←
      if any (λ (x : Observation). x.observation_id == o.observation_id) mapped
      then pure []
      else reconcile_alone s o
  rs ← reconcile_unmapped s mapped os
  pure (r ++ rs)

-- `reconcile_batch`
unfoldable pub reconcile_batch : Services → Run (List StoredResult)
unfolding reconcile_expectations reconcile_unmapped find_open get_all_observations
reconcile_batch s = do
  (rs, mapped) ← reconcile_expectations s (← query s (λ w. find_open w.expectations))
  all ← query s (λ w. get_all_observations w.observations)
  more ← reconcile_unmapped s mapped all
  pure (rs ++ more)

abbrev pub saved_result :
    World → Result IntegrityError (List StoredResult) → Result Raised (Bool × World)
saved_result w (err e) = err unexpected
saved_result w (ok rows) = ok (true, record w { results = rows })

-- `event_repo.publish` of a discrepancy
abbrev publish_discrepancy : Services → StoredResult → Run Bool
publish_discrepancy s r = on_events s (λ n rows. (
  true,
  publish discrepancy_detected
      (record { observation_id = none; reconciliation_id = some r.reconciliation_id }) (s.fresh n)
      (s.clock n) rows,
))

-- The last loop of `_handle_observation_ingested`.
unfoldable pub save_results : Services → List StoredResult → Run Bool
unfolding save_result publish
save_results s [] = pure true
save_results s (r ∷ rs) = do
  transact s.outage (λ w. saved_result w (save_result r w.results))
  if is_discrepancy r.result.outcome then publish_discrepancy s r else pure true
  save_results s rs

-- The results of an observation that was ingested.
abbrev pub reconcile_observed : Services → Observation → List Expectation → Run (List StoredResult)
reconcile_observed s o [] = reconcile_alone s o
reconcile_observed s o (e ∷ es) = do (rs, _) ← reconcile_expectations s (e ∷ es); pure rs

abbrev pub ingest : Services → Option Observation → Run Bool
ingest s none = pure true
ingest s (some o) = do
  es ← query s (λ w. find_open_by_correlation_keys o.correlation_keys w.expectations)
  rs ← reconcile_observed s o es
  save_results s rs

abbrev pub ingest_all : Services → Run Bool
ingest_all s = do rs ← reconcile_batch s; save_results s rs

-- `_handle_observation_ingested`; no id, or an empty one, stands for the whole batch.
unfoldable pub handle_observation_ingested : Services → Option String → Run Bool
unfolding reconcile_batch reconcile_expectations reconcile_alone save_results get_observation
    find_open_by_correlation_keys
handle_observation_ingested s none = ingest_all s
handle_observation_ingested s (some id) =
    if is_empty id
    then ingest_all s
    else query s (λ w. get_observation id w.observations) >>= λ o. ingest s o
