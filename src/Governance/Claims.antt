-- ===== src/Governance/Claims.antt =====
-- What a decision of the gate says of the database (src/engine/governance_gate.py).
use financial_control_engine.Base.{
  ◌+◌, ◌≤◌, ◌≡◌, ◌≢◌, inl, inr, refl, true, false, [], ◌∷◌, ◌++◌, any, some, arith, Option-cases,
}
use financial_control_engine.Base.Int.{ℤ, ◌+ℤ◌, ◌≤ℤ◌}
use financial_control_engine.Lifecycle.{actuation_pending}
use financial_control_engine.Core.Actuation.{Encoders}
use financial_control_engine.Governance.Models.{
  ActionBudget, can_consume, allowed, blocked_by_kill_switch, GateDecision,
}
use financial_control_engine.Governance.Gate.{
  Database, find_plane, plane_blocks, find_budget, put_budget, claimable, claim_rows, is_taken,
  Request, request_key, pending_record, evaluate_and_claim,
}

-- A decision other than ALLOWED leaves every table as it was, the budget included.
pub blocked_unchanged :
    (enc : Encoders) (q : Request) (db : Database)
    → (evaluate_and_claim enc q db).0.status ≢ allowed
    → (evaluate_and_claim enc q db).1 ≡ db
unfolding evaluate_and_claim
blocked_unchanged enc q db h = ground arith

-- While automation is paused every request is blocked by the kill switch and nothing is written.
pub paused_blocks :
    (enc : Encoders) (q : Request) (db : Database)
    → plane_blocks (find_plane "GLOBAL" db.control_planes) ≡ true
    → ((evaluate_and_claim enc q db).0.status ≡ blocked_by_kill_switch)
      × ((evaluate_and_claim enc q db).1 ≡ db)
unfolding evaluate_and_claim
paused_blocks enc q db h = rw h (refl, refl)

abbrev pub spent_budget : ActionBudget → Request → ActionBudget
spent_budget b q = record b {
  count_used = b.count_used + 1;
  monetary_used = b.monetary_used +ℤ q.budget_amount;
  updated_at = q.now;
}

-- What an ALLOWED decision found and wrote.
pub record Claimed (enc : Encoders) (q : Request) (db after : Database) (d : GateDecision)
    : Type 0 where
  pub running : plane_blocks (find_plane "GLOBAL" db.control_planes) ≡ false
  pub budget : ActionBudget
  pub found : find_budget q.budget_id db.budgets ≡ some budget
  pub count_left : budget.count_used + 1 ≤ budget.count_limit
  pub money_left : budget.monetary_used +ℤ q.budget_amount ≤ℤ budget.monetary_limit
  pub at_version : any (claimable (request_key q) q.incident_version) db.incidents ≡ true
  pub fresh : any (is_taken (pending_record enc q)) db.actuations ≡ false
  pub returned : d.actuation_record ≡ some (pending_record enc q)
  pub spent : after.budgets ≡ put_budget (spent_budget budget q) db.budgets
  pub moved :
      after.incidents ≡ claim_rows (request_key q) q.incident_version actuation_pending db.incidents
  pub recorded : after.actuations ≡ db.actuations ++ pending_record enc q ∷ []
  pub planes : after.control_planes ≡ db.control_planes

-- The tests that an ALLOWED decision has passed.
record Passed (enc : Encoders) (q : Request) (db : Database) : Type 0 where
  unblocked : plane_blocks (find_plane "GLOBAL" db.control_planes) ≡ false
  chosen : ActionBudget
  looked_up : find_budget q.budget_id db.budgets ≡ some chosen
  has_room : can_consume chosen q.budget_amount ≡ true
  current : any (claimable (request_key q) q.incident_version) db.incidents ≡ true
  unused : any (is_taken (pending_record enc q)) db.actuations ≡ false

allowed-Passed :
    (enc : Encoders) (q : Request) (db : Database)
    → (evaluate_and_claim enc q db).0.status ≡ allowed
    → Passed enc q db
unfolding evaluate_and_claim
allowed-Passed enc q db h = elim (Option-cases (find_budget q.budget_id db.budgets)) [
  | inl e ↦ absurd (ground arith)
  | inr (b, e) ↦ record {
    unblocked = ground arith;
    chosen = b;
    looked_up = e;
    has_room = ground arith;
    current = ground arith;
    unused = ground arith;
  }
]

-- What a request that passes all tests gets.
Passed-result :
    (enc : Encoders) (q : Request) (db : Database) (p : Passed enc q db)
    → evaluate_and_claim enc q db ≡ (
      record {
        status = allowed;
        reason = "Claimed";
        actuation_record = some (pending_record enc q);
      },
      record db {
        budgets = put_budget (spent_budget p.chosen q) db.budgets;
        incidents = claim_rows (request_key q) q.incident_version actuation_pending db.incidents;
        actuations = db.actuations ++ pending_record enc q ∷ [];
      },
    )
unfolding evaluate_and_claim
Passed-result enc q db p = rw (p.unblocked, p.looked_up, p.has_room, p.current, p.unused) refl

room :
    (b : ActionBudget) (amount : ℤ)
    → can_consume b amount ≡ true
    → (b.count_used + 1 ≤ b.count_limit) × (b.monetary_used +ℤ amount ≤ℤ b.monetary_limit)
unfolding can_consume
room b amount h = ground arith

-- An ALLOWED decision was made with automation running, on a budget with room for the count and the
-- amount and an incident at the version that was read; it spends exactly that from the budget,
-- moves the incident to ACTUATION_PENDING at the next version, adds one PENDING record with a key
-- that no record had, and writes nothing else.
pub allowed_claims :
    (enc : Encoders) (q : Request) (db : Database)
    → (evaluate_and_claim enc q db).0.status ≡ allowed
    → Claimed enc q db (evaluate_and_claim enc q db).1 (evaluate_and_claim enc q db).0
allowed_claims enc q db h =
    let p = allowed-Passed enc q db h in
    let (count, money) = room p.chosen q.budget_amount p.has_room in
    rw (Passed-result enc q db p) (record {
      running = p.unblocked;
      budget = p.chosen;
      found = p.looked_up;
      count_left = count;
      money_left = money;
      at_version = p.current;
      fresh = p.unused;
      returned = refl;
      spent = refl;
      moved = refl;
      recorded = refl;
      planes = refl;
    })
