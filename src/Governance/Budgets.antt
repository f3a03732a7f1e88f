-- ===== src/Governance/Budgets.antt =====
-- Budgets over sequences of requests to the gate (src/engine/governance_gate.py).
use financial_control_engine.Base.{
  ℕ, ◌+◌, ◌≤◌, String, ◌==◌, ◌≡◌, ◌≢◌, inl, inr, refl, sym, Bool, true, false, ◌&&◌, List, [], ◌∷◌,
  none, some, if◌then◌else◌, arith, All, Bool-cases, eq_iff, eq_refl, ap, ◌∙◌, is_some,
  some_injective,
}
use financial_control_engine.Base.Int.{ℤ, pos, pos_part, neg_part, ◌+ℤ◌, ◌≤ℤ◌, int_laws}
use financial_control_engine.Core.Actuation.{Encoders}
use financial_control_engine.Governance.Models.{
  ActionBudget, GovernanceGateDecision, allowed, GateDecision,
}
use financial_control_engine.Governance.Gate.{
  Database, find_budget, put_budget, Request, evaluate_and_claim,
}
use financial_control_engine.Governance.Claims.{
  spent_budget, Claimed, allowed_claims, blocked_unchanged,
}

abbrev pub WithinLimits : ActionBudget → Type 0
WithinLimits b = (b.count_used ≤ b.count_limit) × (b.monetary_used ≤ℤ b.monetary_limit)

abbrev pub is_allowed : GovernanceGateDecision → Bool
is_allowed allowed = true
is_allowed _ = false

pub is_allowed_iff : (d : GovernanceGateDecision) → (is_allowed d ≡ false) → d ≢ allowed
is_allowed_iff d h e = ground arith

pub allowed_of_is_allowed : (d : GovernanceGateDecision) → is_allowed d ≡ true → d ≡ allowed
allowed_of_is_allowed d h = ground arith

-- The row with an id replaced as a whole.
abbrev replace : String → ActionBudget → List ActionBudget → List ActionBudget
replace id b [] = []
replace id b (x ∷ xs) = if x.budget_id == id then b ∷ xs else x ∷ replace id b xs

pub find_budget_id :
    (id : String) (l : List ActionBudget) {b : ActionBudget}
    → find_budget id l ≡ some b
    → (b.budget_id == id) ≡ true
find_budget_id id [] f = cc
find_budget_id id (x ∷ xs) {b} f = elim (Bool-cases (x.budget_id == id)) [
  | inl e ↦ let s : b ≡ x = some_injective (rw e at f) in rw s e
  | inr e ↦ find_budget_id id xs (rw e at f)
]

-- What is written back belongs to the row that was found.
put_budget_found :
    (q : Request) (id : String) {b : ActionBudget} (l : List ActionBudget)
    → find_budget id l ≡ some b
    → put_budget (spent_budget b q) l ≡ replace id (spent_budget b q) l
put_budget_found q id [] f = refl
put_budget_found q id {b} (x ∷ xs) f =
    let i : b.budget_id ≡ id = (eq_iff b.budget_id id).0 (find_budget_id id (x ∷ xs) f) in
    elim (Bool-cases (x.budget_id == id)) [
      | inl e ↦ let s : b ≡ x = some_injective (rw e at f) in rw (s, eq_refl x.budget_id, e) refl
      | inr e ↦ rw (i, e) (ap (◌∷◌ x) (put_budget_found q id xs (rw e at f)))
    ]

All-replace :
    (id : String) (b : ActionBudget) (l : List ActionBudget)
    → WithinLimits b
    → All WithinLimits l
    → All WithinLimits (replace id b l)
All-replace id b [] w h = tt
All-replace id b (x ∷ xs) w h = elim (Bool-cases (x.budget_id == id)) [
  | inl e ↦ rw e (w, h.1)
  | inr e ↦ rw e (h.0, All-replace id b xs w h.1)
]

find_budget-replace :
    (id k : String) (b : ActionBudget) (l : List ActionBudget)
    → (b.budget_id == id) ≡ true
    → find_budget k (replace id b l)
      ≡ (if id == k then (if is_some (find_budget k l) then some b else none) else find_budget k l)
find_budget-replace id k b [] h = ground arith
find_budget-replace id k b (x ∷ xs) h = ground (
  arith,
  eq_iff b.budget_id id,
  eq_iff x.budget_id id,
  eq_iff id k,
  eq_iff x.budget_id k,
  eq_iff b.budget_id k,
  find_budget-replace id k b xs h,
)

-- Every budget stays within its limits, whatever is requested of the gate.
pub evaluate-WithinLimits :
    (enc : Encoders) (q : Request) (db : Database)
    → All WithinLimits db.budgets
    → All WithinLimits (evaluate_and_claim enc q db).1.budgets
evaluate-WithinLimits enc q db h =
    elim (Bool-cases (is_allowed (evaluate_and_claim enc q db).0.status)) [
      | inl e ↦
          let c = allowed_claims enc q db (allowed_of_is_allowed _ e) in
          rw (c.spent, put_budget_found q q.budget_id db.budgets c.found)
            (All-replace q.budget_id (spent_budget c.budget q) db.budgets
              (c.count_left, c.money_left) h)
      | inr e ↦ rw (blocked_unchanged enc q db (is_allowed_iff _ e)) h
    ]

-- Requests one after the other: the decisions and the last database.
unfoldable pub evaluate_all :
    Encoders → List Request → Database → List (Request × GateDecision) × Database
evaluate_all enc [] db = ([], db)
evaluate_all enc (q ∷ qs) db =
    let (d, db') = evaluate_and_claim enc q db in
    let (ds, last) = evaluate_all enc qs db' in ((q, d) ∷ ds, last)

-- How many requests on a budget were allowed, and what they moved.
abbrev pub charges : String → Request × GateDecision → Bool
charges id (q, d) = is_allowed d.status && q.budget_id == id

abbrev pub count_allowed : String → List (Request × GateDecision) → ℕ
count_allowed id [] = 0
count_allowed id (x ∷ xs) = (if charges id x then 1 else 0) + count_allowed id xs

abbrev pub sum_allowed : String → List (Request × GateDecision) → ℤ
sum_allowed id [] = pos 0
sum_allowed id (x ∷ xs) = (if charges id x then x.0.budget_amount else pos 0) +ℤ sum_allowed id xs

-- What one request does to a budget: nothing, or a charge of one and of its amount.
pub record Charged (b b' : ActionBudget) (count : ℕ) (amount : ℤ) : Type 0 where
  pub count_charged : b'.count_used ≡ b.count_used + count
  pub amount_charged : b'.monetary_used ≡ b.monetary_used +ℤ amount
  pub same_count_limit : b'.count_limit ≡ b.count_limit
  pub same_monetary_limit : b'.monetary_limit ≡ b.monetary_limit
  pub still_within : WithinLimits b'

-- The lookup of a budget after an allowed request.
pub budget_after :
    (enc : Encoders) (q : Request) (db : Database) (id : String)
    (c : Claimed enc q db (evaluate_and_claim enc q db).1 (evaluate_and_claim enc q db).0)
    → find_budget id (evaluate_and_claim enc q db).1.budgets
      ≡ (if q.budget_id == id then some (spent_budget c.budget q) else find_budget id db.budgets)
budget_after enc q db id c =
    rw (c.spent, put_budget_found q q.budget_id db.budgets c.found)
      (find_budget-replace q.budget_id id (spent_budget c.budget q) db.budgets
          (find_budget_id q.budget_id db.budgets c.found)
        ∙ ground (arith, c.found, eq_iff q.budget_id id))

evaluate_charges :
    (enc : Encoders) (q : Request) (db : Database) (id : String) {b : ActionBudget}
    → find_budget id db.budgets ≡ some b
    → WithinLimits b
    → let (d, db') = evaluate_and_claim enc q db in
      let paid = charges id (q, d) in
      (b' : ActionBudget) × (find_budget id db'.budgets ≡ some b')
      × Charged b b' (if paid then 1 else 0) (if paid then q.budget_amount else pos 0)
evaluate_charges enc q db id {b} f w =
    elim (Bool-cases (is_allowed (evaluate_and_claim enc q db).0.status)) [
      | inr e ↦
          rw (e, blocked_unchanged enc q db (is_allowed_iff _ e))
            (
              b,
              f,
              record {
                count_charged = omega arith;
                amount_charged = omega int_laws;
                same_count_limit = refl;
                same_monetary_limit = refl;
                still_within = w;
              },
            )
      | inl e ↦
          let c = allowed_claims enc q db (allowed_of_is_allowed _ e) in
          elim (Bool-cases (q.budget_id == id)) [
            | inl k ↦
                let s : c.budget ≡ b =
                  some_injective (sym f ∙ (rw (← (eq_iff q.budget_id id).0 k) c.found)) in
                rw (e, k)
                  (
                    spent_budget c.budget q,
                    (rw k at (budget_after enc q db id c)),
                    record {
                      count_charged = rw s refl;
                      amount_charged = rw s refl;
                      same_count_limit = rw s refl;
                      same_monetary_limit = rw s refl;
                      still_within = (c.count_left, c.money_left);
                    },
                  )
            | inr k ↦
                rw (e, k)
                  (
                    b,
                    (rw k at (budget_after enc q db id c)) ∙ f,
                    record {
                      count_charged = omega arith;
                      amount_charged = omega int_laws;
                      same_count_limit = refl;
                      same_monetary_limit = refl;
                      still_within = w;
                    },
                  )
          ]
    ]

-- Over any sequence of requests, a budget that is found and within its limits is charged exactly one
-- for each allowed request on it and the sum of their amounts, with its limits unchanged, and
-- ends within them.
pub evaluate_all_charges :
    (enc : Encoders) (qs : List Request) (db : Database) (id : String) {b : ActionBudget}
    → find_budget id db.budgets ≡ some b
    → WithinLimits b
    → let (ds, last) = evaluate_all enc qs db in
      (b' : ActionBudget) × (find_budget id last.budgets ≡ some b')
      × Charged b b' (count_allowed id ds) (sum_allowed id ds)
unfolding evaluate_all
evaluate_all_charges enc [] db id {b} f w = (
  b,
  f,
  record {
    count_charged = omega arith;
    amount_charged = omega int_laws;
    same_count_limit = refl;
    same_monetary_limit = refl;
    still_within = w;
  },
)
evaluate_all_charges enc (q ∷ qs) db id {b} f w =
    let (m, g, now) = evaluate_charges enc q db id f w in
    let (b', h, later) =
      evaluate_all_charges enc qs (evaluate_and_claim enc q db).1 id g now.still_within in
    (
      b',
      h,
      record {
        count_charged = omega (arith, now.count_charged, later.count_charged);
        amount_charged = omega (
          int_laws,
          ap pos_part now.amount_charged,
          ap neg_part now.amount_charged,
          ap pos_part later.amount_charged,
          ap neg_part later.amount_charged,
        );
        same_count_limit = later.same_count_limit ∙ now.same_count_limit;
        same_monetary_limit = later.same_monetary_limit ∙ now.same_monetary_limit;
        still_within = later.still_within;
      },
    )
