-- ===== src/Tests/Rows.antt =====
-- The incident table at concrete rows.
use financial_control_engine.Base.{◌≡◌, refl, inl, true, List, [], ◌∷◌, none, some, ok, err, arith}
use financial_control_engine.Lifecycle.{
  IncidentState, detected, investigating, reobserving, resolved, invalid_transition,
  assert_valid_transition,
}
use financial_control_engine.Incidents.Records.{IncidentRecord, Key}
use financial_control_engine.Incidents.Repository.{
  Table, get_active_incident, try_claim_incident, acquire_lease, schedule_retry, terminate_incident,
  commit_actionable,
}
use financial_control_engine.Incidents.Leases.{lease_excludes}
use financial_control_engine.Incidents.Moves.{
  Call, leases, makes_actionable, terminates, call, calls, Traced, calls-Traced,
}
use financial_control_engine.Incidents.Refusals.{early_resolve_raises, dispatched_retry_raises}

abbrev key : Key
key = record { subject = "pay_1"; reason = "MISSING_REFUND" }

abbrev row : IncidentState → IncidentRecord
row s = record {
  active_subject = "pay_1";
  discrepancy_reason = "MISSING_REFUND";
  incident_id = "inc_1";
  state = s;
  lease_owner = none;
  lease_expires_at = none;
  hypothesis_payload = none;
  retry_count = 0;
  next_retry_at = none;
  version = 1;
  created_at = 0;
}

abbrev table : IncidentState → Table
table s = row s ∷ []

-- The row under the lease of a worker for 60 seconds from time 0.
abbrev held : IncidentState → IncidentRecord
held s = record (row s) { lease_owner = some "w1"; lease_expires_at = some 60000000 }

lease_run :
    acquire_lease key "w1" 60 0 (table detected)
    ≡ ok (some (held investigating), held investigating ∷ [])
unfolding acquire_lease assert_valid_transition
lease_run = refl

lease_excludes_example :
    acquire_lease key "w2" 60 60000000 (held investigating ∷ [])
    ≡ ok (none, held investigating ∷ [])
lease_excludes_example =
    lease_excludes key "w1" "w2" 60 0 60 60000000 (table detected) lease_run refl (ground arith)

abbrev resolution : List Call
resolution = leases key "w1" 60 0 ∷ makes_actionable key ∷ terminates key resolved ∷ []

resolution_run : get_active_incident key (calls resolution (table detected)) ≡ some (row resolved)
unfolding calls get_active_incident acquire_lease assert_valid_transition call terminate_incident
    commit_actionable
resolution_run = refl

calls-Traced_example :
    (after : IncidentRecord) × (get_active_incident key (calls resolution (table detected))
      ≡ some after)
    × Traced resolution detected after.state
unfolding get_active_incident
calls-Traced_example = calls-Traced key resolution (table detected) refl

-- The row after the worker's retry was scheduled at time 5 for 30 seconds later.
abbrev waiting : IncidentRecord
waiting = record (row investigating) { retry_count = 1; next_retry_at = some 30000005 }

retry_run : schedule_retry key "w1" 30 5 (held investigating ∷ []) ≡ ok (true, waiting ∷ [])
unfolding schedule_retry assert_valid_transition
retry_run = refl

early_resolve_raises_example :
    terminate_incident key resolved (held investigating ∷ [])
    ≡ err (invalid_transition investigating resolved)
early_resolve_raises_example =
    early_resolve_raises key "w1" 60 0 (table detected) lease_run (inl refl)

reobserving_lease :
    acquire_lease key "w1" 60 0 (table reobserving)
    ≡ ok (some (held reobserving), held reobserving ∷ [])
unfolding acquire_lease assert_valid_transition
reobserving_lease = refl

dispatched_retry_raises_example :
    schedule_retry key "w1" 30 5 (held reobserving ∷ [])
    ≡ err (invalid_transition reobserving investigating)
dispatched_retry_raises_example =
    dispatched_retry_raises key "w1" 60 0 30 5 (table reobserving) reobserving_lease refl

claim_run : try_claim_incident key "inc_1" 0 [] ≡ (true, table detected)
unfolding try_claim_incident
claim_run = refl
