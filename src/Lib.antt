-- ===== src/Lib.antt =====
-- The financial control engine: a kernel that compares what a system expected of a payment provider
-- with what the provider reports, and that lets automation act on a discrepancy only under
-- governance. The model is of the deterministic core and of the worker that drives it; language
-- models, networks, HTTP routes, the user interface and migrations are outside it.
--
-- The parts and their files. Paths are from the root of the repository.
--   Lifecycle.antt, Lifecycle/Paths: the incident state machine,
--     src/domain/investigation/lifecycle.py. `valid_transitions` is `VALID_TRANSITIONS`, the refusal
--     is the value `err (invalid_transition …)`; Paths follows lists of requested states.
--   StateEngine: src/state/models.py, src/state/engine.py and src/evidence/models.py. Provider
--     observations are sorted (`sort_observations`), scanned (`scan_observations`) and concluded
--     (`conclude`, `reconstruct_state`). Execution, Terminals and ArrivalOrder are the proofs.
--   Reconcile: src/reconciliation/models.py and src/reconciliation/engine.py. `reconcile` is made of
--     one function for each numbered section of the source. Classification is the proofs.
--   Control: src/control/policy.py, src/control/provenance.py, src/domain/refunds/models.py and
--     src/integrations/provider.py: the provider's answers and the eligibility of a refund.
--     Safety joins the state engine, the reconciliation and the eligibility.
--   Core: src/domain/core/models.py, src/domain/actuation/models.py, src/engine/actuation_key.py: the
--     recovery intents and the actuation records. `Encoders` holds `json.dumps` and SHA-256 as
--     parameters; no property assumes anything of them.
--   Incidents: `PostgresActiveIncidentRepository` of src/storage/postgres_substrate.py. A table is a
--     list of rows, a method is a function of the table, and a method that raises returns an
--     error in place of a table. Moves, Closed, Leases, Keys, Refusals and Updates are the proofs, Retries has
--     the claim of matured retries; Moves has sequences of calls of those that go through the
--     state machine, by any workers.
--   Governance: src/domain/governance/models.py, src/domain/governance/gate.py,
--     src/engine/governance_gate.py and, in Storage, src/storage/postgres_governance.py.
--     `evaluate_and_claim` is one transaction on four tables; row locks make transactions follow one
--     another, so `evaluate_all` runs requests in a list.
--     Claims, Effects, Budgets, Versions, Idempotency and Updates are the proofs.
--   Policy: src/engine/policy.py: `evaluate` makes an intent of the observations. Selection, Intents and
--     Contradictions are the proofs. The text of a time, which a reason quotes, is a parameter.
--   Matching: src/engine/execution_identity.py and src/engine/reconciliation_controls.py: observations of
--     the substrate are grouped by execution and compared with an expectation. Executions,
--     Latest, Providers and Matches are the proofs. The text of an integer is a parameter.
--   Recovery: src/recovery/outbox.py, src/recovery/registry.py and src/domain/actions/models.py: the
--     outbox of authorized actions and its dispatcher, with the provider as a parameter, and the
--     registry of attempts. Dispatch is the proofs.
--   Substrate: the other repositories of src/storage/postgres_substrate.py. Rows has the tables and
--     `to_domain`/`from_domain`; Observations has the upsert on its unique constraints and the
--     evidence; Expectations, Results, Events and Actuations one repository each. Upserts, Versions,
--     Reads and Polls are the proofs.
--   Ingestion: src/domain/ingestion/models.py, src/storage/postgres_ingestion.py, src/ingestion/worker.py
--     and src/engine/adapters/razorpay_payment_adapter.py: the queue of provider payloads with leases,
--     on PostgreSQL (Repository) and in memory (Memory), the adapter, and the batches. Of a payload's
--     JSON, Payloads has the keys that are read; a null `id` or `currency`, a
--     `created_at` that is no whole number of seconds and sections that are no objects are left out; a
--     `created_at` out of the range of a date raises. Which rows a claim on PostgreSQL selects, whose query
--     has no order and skips locked rows, is an argument of the claim. Entries, Agreement,
--     Claims, Exclusive, Redelivery, Finishing, Updates and Unheard are the proofs; Agreement has
--     sequences of calls.
--   Investigation: src/domain/investigation/models.py and context.py,
--     src/engine/evidence_assembler.py, src/investigation/input_formatter.py and validator.py: the
--     context of an investigation, the input of the agent, the hypothesis, and the validator.
--   Worker: src/engine/worker.py with src/engine/observer.py, src/engine/actuator.py,
--     src/engine/reconciliation_v2.py and src/investigation/verifier.py.
--     Runs: a run takes a `World`, all tables and the mutations that were sent, to a value or an
--     exception and a world; `attempt` is `try`, `transact` one transaction. Services: the clock, the
--     agent, the provider and the merchant's system, answered by the number of the call.
--     Writes, Observer, Actuator and Verifier are the steps; Process/Acting and Process are
--     `_process_investigation` from its end to its start, one function for each comment in capitals
--     of the source; Loop/Ingesting and Loop are the handlers and `poll_and_process`.
--     Logic is what holds after a run, on every answer and exception. Sources, Grounded, Walk, Stages,
--     Closing and Outcomes follow an investigation through its steps once, for any property that its moves
--     keep; Approved, Resolved, Sent, Paused, Stuck, Retrying
--     and Rounds apply this.
--   Base: shared names, Boolean tests, integers, lists and text. Tests: runs and witnesses.
--
-- How the parts interact: the state engine's result is an argument of `reconcile` and of
-- `evaluate_refund_eligibility`; the repository moves incidents by the state machine; the gate
-- writes the same incident rows by their version and does not ask the state machine. The worker takes
-- events of the substrate, which the ingestion publishes for each payload, reconciles by the controls of
-- Matching, leases incidents, validates the agent's hypothesis, lets the policy decide, asks the gate,
-- and sends what it allows.
--
-- Conventions. Integers of Python are unbounded: counts are ℕ, amounts and times are ℤ. Times are
-- microseconds, so that the source's fractional timestamps are whole numbers; the clock is an
-- argument. Decimal amounts are integers of the smallest unit. All loops are recursion on lists;
-- there is no fuel, and every run ends. Fresh ids are arguments, or are answered by the number of the
-- call. A property of runs is of all answers: that ids are fresh and that the clock advances is not
-- assumed. An outage of the database is the exception `OperationalError` before a transaction.
--
-- Not modelled: writes of other workers during a run of one worker (polls follow one another); the
-- worker's fallback without a gate, since the program is run with the gate; metrics, logs and test
-- hooks; the agent and the simulator, which are parameters; correlation and cases, the
-- client and the verifier of the provider, the in-memory repositories of the substrate, orchestration,
-- HTTP routes and scripts but for a callback, which no modelled part calls.
pub mod Base
pub mod Lifecycle
pub mod StateEngine
pub mod Core
pub mod Reconcile
pub mod Control
pub mod Incidents
pub mod Governance
pub mod Policy
pub mod Matching
pub mod Recovery
pub mod Substrate
pub mod Investigation
pub mod Worker
pub mod Ingestion
pub mod Tests
