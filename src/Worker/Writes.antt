-- ===== src/Worker/Writes.antt =====
-- The transactions of the worker: methods of src/storage/postgres_substrate.py on all tables that they
-- write, and the call of the gate.
use financial_control_engine.Base.{ℕ, String, Bool, true, List, [], ◌∷◌, none, Result, ok, err}
use financial_control_engine.Lifecycle.{IncidentState, TransitionError}
use financial_control_engine.Core.Models.{Evidence, Observation}
use financial_control_engine.Core.Actuation.{ActuationRecord}
use financial_control_engine.Governance.Models.{GateDecision}
use financial_control_engine.Governance.Gate.{Request, evaluate_and_claim}
use financial_control_engine.Incidents.Records.{Key}
use financial_control_engine.Incidents.Repository.{
  Table, commit_actionable, resolve_reobserved, terminate_incident, schedule_retry,
}
use financial_control_engine.Substrate.Rows.{EvidenceRow, ObservationRow}
use financial_control_engine.Substrate.Observations.{
  IntegrityError, save_observation, save_evidence,
}
use financial_control_engine.Substrate.Actuations.{save_actuation}
use financial_control_engine.Substrate.Events.{observation_ingested, publish}
use financial_control_engine.Worker.Runs.{World, Raised, unexpected, Run, pure, ◌>>◌, transact}
use financial_control_engine.Worker.Services.{Services}

abbrev pub with_incidents : World → Table → World
with_incidents w rows = record w { database = record w.database { incidents = rows } }

abbrev pub moved : World → Result TransitionError (Bool × Table) → Result Raised (Bool × World)
moved w (err e) = err unexpected
moved w (ok (done, rows)) = ok (done, with_incidents w rows)

-- A method of the incident repository, as a transaction.
unfoldable pub on_incidents :
    Services → (ℕ → Table → Result TransitionError (Bool × Table)) → Run Bool
on_incidents s f = transact s.outage (λ w. moved w (f w.tick w.database.incidents))

-- `terminate_incident`
abbrev pub terminate : Services → Key → IncidentState → Run Bool
terminate s k state = on_incidents s (λ _. terminate_incident k state)

-- `schedule_retry`
abbrev pub retry : Services → Key → String → ℕ → Run Bool
retry s k worker delay = on_incidents s (λ n. schedule_retry k worker delay (s.clock n))

-- The evidence that is new is inserted, the rest ignored.
unfoldable pub save_all_evidence : List Evidence → List EvidenceRow → List EvidenceRow
unfolding save_evidence
save_all_evidence [] rows = rows
save_all_evidence (e ∷ es) rows = save_all_evidence es (save_evidence e rows)

abbrev pub then_save :
    Result IntegrityError (List ObservationRow)
    → (List ObservationRow → Result IntegrityError (List ObservationRow))
    → Result IntegrityError (List ObservationRow)
then_save (err e) f = err e
then_save (ok rows) f = f rows

-- The upserts of the observations, in their order.
unfoldable pub save_all_observations :
    List Observation → List ObservationRow → Result IntegrityError (List ObservationRow)
unfolding save_observation
save_all_observations [] rows = ok rows
save_all_observations (o ∷ os) rows = then_save (save_observation o rows) (save_all_observations os)

abbrev pub persisted :
    World
    → List EvidenceRow
    → Result IntegrityError (List ObservationRow)
    → Result TransitionError (Bool × Table)
    → Result Raised (Bool × World)
persisted w evidence (err e) rows = err unexpected
persisted w evidence (ok observations) (err e) = err unexpected
persisted w evidence (ok observations) (ok (done, rows)) = ok (
  done,
  record w {
    database = record w.database { incidents = rows };
    observations = observations;
    evidence = evidence;
  },
)

-- The evidence, the observations and the move of the incident in one transaction.
unfoldable pub persist :
    Services
    → (Table → Result TransitionError (Bool × Table))
    → List Evidence
    → List Observation
    → Run Bool
unfolding save_all_evidence save_all_observations
persist s move evidence observations = transact s.outage (λ w.
    persisted w (save_all_evidence evidence w.evidence)
      (save_all_observations observations w.observations) (move w.database.incidents))

-- `commit_verification_success`
unfoldable pub commit_verification_success :
    Services → Key → List Evidence → List Observation → Run Bool
unfolding persist
commit_verification_success s k = persist s (commit_actionable k)

-- `session.add(event_record)`, if there are new observations
abbrev pub announce : Services → List Observation → Run Bool
announce s [] = pure true
announce s (o ∷ os) = transact s.outage (λ w. ok (
  true,
  record w {
    events =
        publish observation_ingested (record { observation_id = none; reconciliation_id = none })
          (s.fresh w.tick) (s.clock w.tick) w.events;
  },
))

-- `persist_reobservation_and_resolve`, which commits twice
unfoldable pub persist_reobservation_and_resolve :
    Services → Key → List Evidence → List Observation → Run Bool
unfolding persist publish
persist_reobservation_and_resolve s k evidence observations = do
  persist s (resolve_reobserved k) evidence observations
  announce s observations

-- `GovernanceGate.evaluate_and_claim`, with the fresh id and the time of the call
unfoldable pub ask_gate : Services → (ℕ → Request) → Run GateDecision
ask_gate s q = transact s.outage (λ w.
    let (decision, after) = evaluate_and_claim s.encoders (q w.tick) w.database in
    ok (decision, record w { database = after }))

abbrev pub saved_actuation :
    World → Result IntegrityError (List ActuationRecord) → Result Raised (Bool × World)
saved_actuation w (err e) = err unexpected
saved_actuation w (ok rows) =
    ok (true, record w { database = record w.database { actuations = rows } })

-- `actuation_repo.save`
unfoldable pub record_outcome : Services → (ℕ → ActuationRecord) → Run Bool
unfolding save_actuation
record_outcome s r =
    transact s.outage (λ w. saved_actuation w (save_actuation (r w.tick) w.database.actuations))
