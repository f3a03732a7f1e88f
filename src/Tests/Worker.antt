-- ===== src/Tests/Worker.antt =====
-- The worker at a concrete world: an order that the merchant has cancelled, and that is paid.
use financial_control_engine.Base.{
  ℕ, length, String, ◌≡◌, refl, true, false, lower, strip, [], ◌∷◌, Option, none, some, ok, err,
  inr, ◌⊎◌, All, inr,
}
use financial_control_engine.Base.Int.{pos}
use financial_control_engine.Lifecycle.{
  IncidentState, verifying, investigating, reobserving, resolved,
}
use financial_control_engine.Core.Models.{
  refund_payment, CorrelationKeys, aware, discrepancy, state_mismatch, open_status,
}
use financial_control_engine.Core.Actuation.{
  MutationPayload, number, text, generate_idempotency_key, success, escalated,
}
use financial_control_engine.Governance.Models.{ActionBudget, daily, paused, ControlPlaneState}
use financial_control_engine.Incidents.Records.{IncidentRecord}
use financial_control_engine.Incidents.Repository.{get_active_incident}
use financial_control_engine.Substrate.Rows.{ExpectationRow, ObservationRow}
use financial_control_engine.Substrate.Results.{StoredResult, reason_value}
use financial_control_engine.Investigation.Hypotheses.{CausalHypothesis, investigation_exhausted}
use financial_control_engine.Worker.Runs.{World, Mutation, unexpected}
use financial_control_engine.Worker.Services.{Services, client_error}
use financial_control_engine.Worker.Process.{Task, task_key, process_investigation}
use financial_control_engine.Worker.Runs.{◌>>=◌, transact, ask, attempt, pure}
use financial_control_engine.Matching.Controls.{evaluate_expectation_centric}
use financial_control_engine.Lifecycle.{state_eq, assert_valid_transition}
use financial_control_engine.Worker.Writes.{on_incidents}
use financial_control_engine.Incidents.Repository.{
  update_hypothesis, commit_actionable, update_incident_state_occ, transition_to_actuating,
  transition_to_reobserving, resolve_reobserved,
}
use financial_control_engine.Governance.Gate.{evaluate_and_claim}
use financial_control_engine.Base.Int.{◌+ℤ◌}
use financial_control_engine.Worker.Approved.{
  AtMostOne, process-Approved, Refunded, refund_sent-Refunded,
}
use financial_control_engine.Worker.Walk.{Grounds}
use financial_control_engine.Worker.Resolved.{process-Grounds}
use financial_control_engine.Worker.Stuck.{Stuck, reobserving_not_resumed}
use financial_control_engine.Worker.Retrying.{Failing}
use financial_control_engine.Worker.Rounds.{Rounds}
use financial_control_engine.Worker.Sent.{SentOnce, is_claimed, Poll, polls, polls-Claimed}
use financial_control_engine.Worker.Paused.{with_planes, pause_stops_sending}
use financial_control_engine.Governance.Storage.{update_control_plane_state_occ}
use financial_control_engine.Substrate.Events.{publish, discrepancy_detected}
use financial_control_engine.Worker.Actuator.{Execution, execute_intent}
use financial_control_engine.Worker.Loop.{
  poll_and_process, process_events, process_event, handle_discrepancy, claim_and_process,
}

abbrev keys : Option String → Option String → CorrelationKeys
keys order payment = record {
  internal_ref = order;
  provider_ref = payment;
  provider = none;
  domain = none;
  observation_type = none;
}

abbrev expected : ExpectationRow
expected = record {
  expectation_id = "e1";
  domain = "PAYMENT";
  expected_state = "FAILED";
  expected_amount = pos 700;
  currency = "INR";
  source_system = "orders";
  business_status = open_status;
  correlation_keys = keys (some "order_1") (some "pay_1");
  created_at = aware (pos 0);
}

abbrev observed : String → String → String → ℕ → ObservationRow
observed provider reference state at = record {
  observation_id = reference;
  provider = provider;
  provider_reference = reference;
  observation_type = "api_response";
  observed_state = state;
  observed_amount = pos 700;
  currency = "INR";
  evidence_ids = [];
  correlation_keys = keys (some "order_1") none;
  provider_event_id = none;
  provider_version = some "";
  observed_at = aware (pos at);
  ingestion_event_id = reference;
}

abbrev mismatch : StoredResult
mismatch = record {
  reconciliation_id = "r1";
  created_at = pos 0;
  result = record {
    expectation_id = some "e1";
    observation_ids = "order_1" ∷ "pay_1" ∷ [];
    outcome = discrepancy;
    reconciliation_reason = "Provider razorpay expected FAILED, observed SETTLED";
    discrepancy_reason = some state_mismatch;
  };
}

abbrev incident : IncidentState → IncidentRecord
incident s = record {
  active_subject = "e1";
  discrepancy_reason = "STATE_MISMATCH";
  incident_id = "inc_1";
  state = s;
  lease_owner = some "w1";
  lease_expires_at = some 100;
  hypothesis_payload = none;
  retry_count = 0;
  next_retry_at = none;
  version = 1;
  created_at = 0;
}

abbrev budget : ActionBudget
budget = record {
  budget_id = "budget_refund_payment";
  target_action = "REFUND_PAYMENT";
  period = daily;
  count_limit = 2;
  monetary_limit = pos 1000;
  currency = "INR";
  count_used = 0;
  monetary_used = pos 0;
  updated_at = 0;
  version = 1;
}

abbrev pub world : IncidentState → World
world s = record {
  database = record {
    control_planes = [];
    budgets = budget ∷ [];
    incidents = incident s ∷ [];
    actuations = [];
  };
  expectations = expected ∷ [];
  observations =
      observed "Merchant" "order_1" "FAILED" 5 ∷ observed "Razorpay" "pay_1" "SETTLED" 4 ∷ [];
  evidence = [];
  results = mismatch ∷ [];
  events = [];
  mutations = [];
  tick = 10;
}

abbrev task : IncidentState → Task
task s = record { incident = incident s; discrepancy = mismatch; worker = "w1" }

abbrev exhausted : CausalHypothesis
exhausted = record {
  hypothesis_id = "h1";
  claim = "The order was cancelled after the payment.";
  supporting_evidence_ids = [];
  contradicting_evidence_ids = [];
  missing_evidence = "none";
  confidence = "LOW";
  disposition = investigation_exhausted;
  verification_intents = [];
}

-- External systems that answer, and that have refunded the payment when it is read.
abbrev pub services : Services
services = record {
  clock = λ n. n;
  fresh = λ n. "fresh";
  outage = λ n. false;
  encoders = record { dumps = λ (p : MutationPayload). "{}"; sha256 = λ (s : String). s };
  str = λ z. "n";
  iso = λ d. "then";
  dump = λ h. "{}";
  load = λ text. none;
  investigate = λ n input. ok exhausted;
  query_provider = λ n i c. err unexpected;
  has_provider = true;
  read_merchant_order = λ n id. ok none;
  get_payment = λ n id.
      ok (record { id = id; order_id = some "order_1"; status = "refunded"; amount = pos 700 });
  get_refund = λ n id. err client_error;
  create_refund = λ n id amount receipt key. ok tt;
  update_merchant_order = λ n id status state. ok "REJECTED";
}

refund_run :
    (process_investigation services (task investigating) (world investigating)).1.mutations
    ≡ record {
      action = refund_payment;
      target_id = "pay_1";
      idempotency_key = "e1:REFUND_PAYMENT:pay_1:{}";
      payload = ("amount", number (pos 700)) ∷ ("currency", text "INR") ∷ [];
    }
      ∷ []
unfolding process_investigation ◌>>=◌ transact ask evaluate_expectation_centric lower attempt
    state_eq strip on_incidents update_hypothesis assert_valid_transition pure commit_actionable
    evaluate_and_claim ◌+ℤ◌ transition_to_actuating transition_to_reobserving resolve_reobserved
    generate_idempotency_key
refund_run = refl

resolved_run :
    get_active_incident
      (task_key (task investigating))
      (process_investigation services
        (task investigating)
        (world investigating)).1.database.incidents
    ≡ some (record (incident resolved) {
      lease_owner = none;
      lease_expires_at = none;
      hypothesis_payload = some "{}";
      version = 2;
    })
unfolding process_investigation ◌>>=◌ transact ask evaluate_expectation_centric lower attempt
    state_eq strip on_incidents update_hypothesis assert_valid_transition pure commit_actionable
    evaluate_and_claim ◌+ℤ◌ transition_to_actuating transition_to_reobserving resolve_reobserved
    get_active_incident
resolved_run = refl

process-Approved_example :
    let after = (process_investigation services (task investigating) (world investigating)).1 in
    AtMostOne services
      (task investigating)
      (world investigating)
      after.mutations
      after.database.actuations
      after.database.budgets
process-Approved_example = process-Approved services (task investigating) (world investigating)

refund_sent-Refunded_example :
    let after = (process_investigation services (task investigating) (world investigating)).1 in
    (after.mutations ≡ [])
    ⊎ ((m : Mutation) × (after.mutations ≡ m ∷ [])
        × (m.action ≡ refund_payment
            → Refunded services (task investigating) (world investigating) m))
refund_sent-Refunded_example =
    refund_sent-Refunded services (task investigating) (world investigating)

-- The same world with the automation paused.
abbrev stopped : World
stopped = record (world investigating) {
  database = record (world investigating).database {
    control_planes =
        record {
          id = "GLOBAL";
          automation_state = paused;
          reason = some "drill";
          updated_by = "ops";
          updated_at = 0;
          version = 1;
        }
        ∷ [];
  };
}

process-Grounds_example :
    let after = (process_investigation services (task investigating) (world investigating)).1 in
    (x : IncidentRecord) × (get_active_incident
        (task_key (task investigating))
        after.database.incidents
      ≡ some x)
    × (x.state ≡ resolved → Grounds services (task investigating) (world investigating))
unfolding get_active_incident
process-Grounds_example =
    process-Grounds services (task investigating) (world investigating) refl (λ e. cc)

reobserving_not_resumed_example :
    Stuck services
      (task reobserving)
      (world reobserving)
      (process_investigation services (task reobserving) (world reobserving)).1
unfolding get_active_incident
reobserving_not_resumed_example =
    reobserving_not_resumed services (task reobserving) (world reobserving) refl refl refl

-- The incident once its hypothesis was stored: the leased record is INVESTIGATING still.
abbrev hypothesized : IncidentRecord
hypothesized = record (incident verifying) { hypothesis_payload = some "{}" }

abbrev world_of : IncidentRecord → World
world_of i = record (world investigating) {
  database = record (world investigating).database { incidents = i ∷ [] };
}

abbrev failing_hypothesis : Failing services (task investigating) (world_of hypothesized)
unfolding get_active_incident
failing_hypothesis = record {
  up = refl;
  row = hypothesized;
  found = refl;
  same_count = refl;
  owned = refl;
  under_way = inr refl;
}

-- The incident after four retries more, leased once again, and as it is retried and then escalated.
abbrev leased_again : IncidentRecord
leased_again = record (incident investigating) { retry_count = 5 }

abbrev task_again : Task
task_again = record (task investigating) { incident = leased_again }

abbrev fourth : IncidentRecord
fourth = record (incident investigating) { retry_count = 4 }

-- A world with an event to handle.
abbrev waiting : World
waiting = record (world investigating) {
  events =
      publish discrepancy_detected
        (record { observation_id = none; reconciliation_id = some mismatch.reconciliation_id })
        "ev_1" 0 [];
}

-- Two polls, by workers that are answered alike.
abbrev poll : Poll
poll = record {
  services = services;
  worker = record {
    worker_id = "w1";
    worker_lease_ttl_seconds = 60;
    event_stale_threshold_seconds = 60;
  };
  limit = 5;
}

polls-Claimed_example :
    let after = polls (poll ∷ poll ∷ []) waiting in
    SentOnce after.mutations
    × All (λ (x : Mutation). is_claimed after.database.actuations x ≡ true) after.mutations
polls-Claimed_example = polls-Claimed (poll ∷ poll ∷ []) waiting (tt, tt)

abbrev pause : ControlPlaneState
pause = record {
  id = "GLOBAL";
  automation_state = paused;
  reason = none;
  updated_by = "alice";
  updated_at = 5;
  version = 1;
}

unpaused_run : length (polls (poll ∷ poll ∷ []) waiting).mutations ≡ 1
unfolding polls poll_and_process process_events process_event handle_discrepancy claim_and_process
    process_investigation ◌>>=◌ transact ask evaluate_expectation_centric lower attempt state_eq
    strip on_incidents update_hypothesis assert_valid_transition pure commit_actionable
    evaluate_and_claim ◌+ℤ◌ transition_to_actuating transition_to_reobserving resolve_reobserved
    reason_value
unpaused_run = refl

pause_stops_sending_example :
    (polls
      (poll ∷ poll ∷ [])
      (with_planes (update_control_plane_state_occ pause 6 []).1 waiting)).mutations
    ≡ []
unfolding update_control_plane_state_occ
pause_stops_sending_example = pause_stops_sending pause 6 (poll ∷ poll ∷ []) waiting refl refl refl

-- A claim without the gate, and another one at the version that the first has read.
abbrev execution : Execution
execution = record {
  intent = record {
    action = refund_payment;
    target_id = "pay_1";
    amount = some (pos 700);
    currency = some "INR";
    reason = none;
    expected_provider_state = none;
  };
  execution_identity = "e1";
  discrepancy_reason = "STATE_MISMATCH";
  incident_version = 1;
}

execute_once_run :
    let (first, after) = execute_intent services execution (world investigating) in
    let (second, last) = execute_intent services execution after in
    (first ≡ ok success)
    × (second ≡ ok escalated)
    × (length after.mutations ≡ 1)
    × (last.mutations ≡ after.mutations)
unfolding execute_intent ◌>>=◌ ask transact on_incidents update_incident_state_occ attempt pure
execute_once_run = (refl, refl, refl, refl)
