-- ===== src/Governance/Effects.antt =====
-- What an ALLOWED decision of the gate writes (src/engine/governance_gate.py), row by row.
use financial_control_engine.Base.{
  ◌+◌, ◌≤◌, String, ◌==◌, ◌≡◌, refl, ap, ◌∙◌, Bool, true, false, ◌&&◌, List, [], ◌∷◌, ◌++◌, any,
  map, some, if◌then◌else◌, inl, inr, Bool-cases, arith, nat_eq, eq_iff, some_injective,
}
use financial_control_engine.Base.Int.{◌+ℤ◌, ◌≤ℤ◌}
use financial_control_engine.Lifecycle.{actuation_pending}
use financial_control_engine.Core.Models.{action_value}
use financial_control_engine.Core.Actuation.{
  Encoders, ActuationRecord, pending, generate_canonical_payload, generate_idempotency_key,
  mutation_payload,
}
use financial_control_engine.Governance.Models.{ActionBudget, allowed, GateDecision}
use financial_control_engine.Governance.Gate.{
  Database, find_plane, plane_blocks, find_budget, put_budget, claim_rows, is_taken, Request,
  request_key, pending_record, evaluate_and_claim,
}
use financial_control_engine.Governance.Claims.{spent_budget, allowed_claims}
use financial_control_engine.Governance.Budgets.{find_budget_id}
use financial_control_engine.Incidents.Records.{IncidentRecord}

-- The incident of the request at the version that it read.
abbrev is_meant : Request → IncidentRecord → Bool
is_meant q r =
    r.active_subject == q.execution_identity
    && r.discrepancy_reason == q.discrepancy_reason
    && nat_eq r.version q.incident_version

abbrev moved_row : Request → IncidentRecord → IncidentRecord
moved_row q r =
    if is_meant q r
    then record r { state = actuation_pending; version = q.incident_version + 1 }
    else r

abbrev request_identity : Encoders → Request → String
request_identity enc q =
    generate_idempotency_key enc q.execution_identity (action_value q.intent.action)
      q.intent.target_id (generate_canonical_payload enc (mutation_payload q.intent))

-- What is found before and after an ALLOWED decision.
pub record Effects (enc : Encoders) (q : Request) (db after : Database) (d : GateDecision)
    : Type 0 where
  pub running : plane_blocks (find_plane "GLOBAL" db.control_planes) ≡ false
  pub budget : ActionBudget
  pub found : find_budget q.budget_id db.budgets ≡ some budget
  pub count_left : budget.count_used + 1 ≤ budget.count_limit
  pub money_left : budget.monetary_used +ℤ q.budget_amount ≤ℤ budget.monetary_limit
  pub current : any (is_meant q) db.incidents ≡ true
  pub unused :
      any (λ (r : ActuationRecord). r.idempotency_key == request_identity enc q) db.actuations
      ≡ false
  pub spent :
      find_budget q.budget_id after.budgets
      ≡ some (record budget {
        count_used = budget.count_used + 1;
        monetary_used = budget.monetary_used +ℤ q.budget_amount;
        updated_at = q.now;
      })
  pub others :
      (id : String)
      → (q.budget_id == id) ≡ false
      → find_budget id after.budgets ≡ find_budget id db.budgets
  pub moved : after.incidents ≡ map (moved_row q) db.incidents
  pub entry : ActuationRecord
  pub recorded : after.actuations ≡ db.actuations ++ entry ∷ []
  pub returned : d.actuation_record ≡ some entry
  pub entry_state : entry.state ≡ pending
  pub entry_key : entry.idempotency_key ≡ request_identity enc q
  pub entry_identity : entry.execution_identity ≡ q.execution_identity
  pub entry_target : entry.target_id ≡ q.intent.target_id
  pub planes : after.control_planes ≡ db.control_planes

claim_rows-map :
    (q : Request) (rows : List IncidentRecord)
    → claim_rows (request_key q) q.incident_version actuation_pending rows ≡ map (moved_row q) rows
unfolding claim_rows
claim_rows-map q [] = refl
claim_rows-map q (r ∷ rows) = elim (Bool-cases (is_meant q r)) [
  | inl e ↦
      let version : r.version ≡ q.incident_version = ground (arith, e) in
      rw (e, version)
        (ap (λ l. record r { state = actuation_pending; version = q.incident_version + 1 } ∷ l)
          (claim_rows-map q rows))
  | inr e ↦ rw e (ap (λ l. r ∷ l) (claim_rows-map q rows))
]

find-put_budget :
    (b : ActionBudget) (q : Request) (l : List ActionBudget)
    → find_budget q.budget_id l ≡ some b
    → (b.budget_id == q.budget_id) ≡ true
    → find_budget q.budget_id (put_budget (spent_budget b q) l) ≡ some (spent_budget b q)
find-put_budget b q [] f h = cc
find-put_budget b q (x ∷ xs) f h =
    let id : b.budget_id ≡ q.budget_id = (eq_iff b.budget_id q.budget_id).0 h in
    let like : (x.budget_id == b.budget_id) ≡ (x.budget_id == q.budget_id) =
      ap (λ i. x.budget_id == i) id in
    elim (Bool-cases (x.budget_id == q.budget_id)) [
      | inl e ↦ let same : b ≡ x = some_injective (rw e at f) in rw (like ∙ e, e) (rw same refl)
      | inr e ↦ rw (like ∙ e, e) (find-put_budget b q xs (rw e at f) h)
    ]

find-put_budget_other :
    (b : ActionBudget) (id : String) (l : List ActionBudget)
    → (b.budget_id == id) ≡ false
    → find_budget id (put_budget b l) ≡ find_budget id l
find-put_budget_other b id [] h = refl
find-put_budget_other b id (x ∷ xs) h = elim (Bool-cases (x.budget_id == b.budget_id)) [
  | inl e ↦
      let same : x.budget_id ≡ b.budget_id = (eq_iff x.budget_id b.budget_id).0 e in
      rw (e, same, h) refl
  | inr e ↦ elim (Bool-cases (x.budget_id == id)) [
    | inl k ↦ rw (e, k) refl
    | inr k ↦ rw (e, k) (find-put_budget_other b id xs h)
  ]
]

key_unused :
    (x : ActuationRecord) (l : List ActuationRecord)
    → any (is_taken x) l ≡ false
    → any (λ (r : ActuationRecord). r.idempotency_key == x.idempotency_key) l ≡ false
key_unused x [] h = refl
key_unused x (r ∷ l) h = ground (arith, h, key_unused x l (ground (arith, h)))

-- An ALLOWED decision was made with automation running, on a budget with room for the count and the
-- amount and an incident at the version that was read; it spends exactly that from the budget and nothing
-- from another, moves that incident alone to ACTUATION_PENDING at the next version, adds one PENDING record
-- under the key of the request, which no record had, and writes nothing else.
pub allowed-Effects :
    (enc : Encoders) (q : Request) (db : Database)
    → (evaluate_and_claim enc q db).0.status ≡ allowed
    → Effects enc q db (evaluate_and_claim enc q db).1 (evaluate_and_claim enc q db).0
unfolding pending_record
allowed-Effects enc q db h =
    let c = allowed_claims enc q db h in
    let own = find_budget_id q.budget_id db.budgets c.found in
    record {
      running = c.running;
      budget = c.budget;
      found = c.found;
      count_left = c.count_left;
      money_left = c.money_left;
      current = c.at_version;
      unused = key_unused (pending_record enc q) db.actuations c.fresh;
      spent =
          ap (find_budget q.budget_id) c.spent ∙ find-put_budget c.budget q db.budgets c.found own;
      others = λ id n.
          ap (find_budget id) c.spent
          ∙ find-put_budget_other (spent_budget c.budget q) id db.budgets
              (ap (λ i. i == id) ((eq_iff c.budget.budget_id q.budget_id).0 own) ∙ n);
      moved = c.moved ∙ claim_rows-map q db.incidents;
      entry = pending_record enc q;
      recorded = c.recorded;
      returned = c.returned;
      entry_state = refl;
      entry_key = refl;
      entry_identity = refl;
      entry_target = refl;
      planes = c.planes;
    }
