-- ===== src/Governance/Updates.antt =====
-- The optimistic updates of src/storage/postgres_governance.py, after one another and after the gate.
use financial_control_engine.Base.{
  ℕ, ◌+◌, String, ◌==◌, ◌≡◌, ◌↔◌, ◌⊎◌, ◌≢◌, refl, sym, ap, ◌∙◌, true, false, List, [], ◌∷◌, ◌++◌,
  any, map, none, some, inl, inr, arith, nat_eq, nat_eq_iff, Bool-cases, Option-cases,
  some_injective, eq_refl, eq_iff,
}
use financial_control_engine.Core.Actuation.{Encoders}
use financial_control_engine.Governance.Models.{ControlPlaneState, ActionBudget, allowed}
use financial_control_engine.Governance.Gate.{
  Database, find_plane, find_budget, Request, evaluate_and_claim,
}
use financial_control_engine.Governance.Claims.{allowed_claims, spent_budget}
use financial_control_engine.Governance.Budgets.{find_budget_id, budget_after}
use financial_control_engine.Governance.Storage.{
  plane_at, updated_plane, update_control_plane_state_occ, budget_at, updated_budget,
  update_budget_occ,
}

find_plane-append :
    (id : String) (rows : List ControlPlaneState) (new : ControlPlaneState)
    → find_plane id rows ≡ none
    → (new.id == id) ≡ true
    → find_plane id (rows ++ new ∷ []) ≡ some new
find_plane-append id [] new h e = rw e refl
find_plane-append id (p ∷ ps) new h e = elim (Bool-cases (p.id == id)) [
  | inl m ↦ absurd (cc (rw m at h))
  | inr m ↦ rw m (find_plane-append id ps new (rw m at h) e)
]

find_plane-map :
    (id : String) (f : ControlPlaneState → ControlPlaneState) (rows : List ControlPlaneState)
    {p : ControlPlaneState}
    → ((x : ControlPlaneState) → (f x).id ≡ x.id)
    → find_plane id rows ≡ some p
    → find_plane id (map f rows) ≡ some (f p)
find_plane-map id f [] same h = cc
find_plane-map id f (x ∷ xs) same h = elim (Bool-cases (x.id == id)) [
  | inl m ↦
      let g : ((f x).id == id) ≡ true = ap (λ (s : String). s == id) (same x) ∙ m in
      rw g (ap some (ap f (sym (some_injective (rw m at h)))))
  | inr m ↦
      let g : ((f x).id == id) ≡ false = ap (λ (s : String). s == id) (same x) ∙ m in
      rw g (find_plane-map id f xs same (rw m at h))
]

find_plane-id :
    (id : String) (rows : List ControlPlaneState) {p : ControlPlaneState}
    → find_plane id rows ≡ some p
    → (p.id == id) ≡ true
find_plane-id id [] h = cc
find_plane-id id (x ∷ xs) h = elim (Bool-cases (x.id == id)) [
  | inl m ↦ rw (some_injective (rw m at h)) m
  | inr m ↦ find_plane-id id xs (rw m at h)
]

updated_plane-id :
    (new : ControlPlaneState) (now : ℕ) (x : ControlPlaneState)
    → (updated_plane new now x).id ≡ x.id
updated_plane-id new now x = elim (Bool-cases (plane_at new.id new.version x)) [
  | inl m ↦ rw m refl
  | inr m ↦ rw m refl
]

-- What is in the table after an update that succeeded.
pub record Updated (new : ControlPlaneState) (rows after : List ControlPlaneState) : Type 0 where
  pub row : ControlPlaneState
  pub found : find_plane new.id after ≡ some row
  pub state : row.automation_state ≡ new.automation_state
  pub version :
      ((find_plane new.id rows ≡ none) × (row.version ≡ new.version))
      ⊎ ((find_plane new.id rows ≢ none) × (row.version ≡ new.version + 1))

Updated-found :
    (new : ControlPlaneState) (now : ℕ) (rows : List ControlPlaneState) {p : ControlPlaneState}
    → find_plane new.id rows ≡ some p
    → nat_eq p.version new.version ≡ true
    → Updated new rows (map (updated_plane new now) rows)
Updated-found new now rows {p} n e =
    let at : plane_at new.id new.version p ≡ true = rw (find_plane-id new.id rows n) e in
    record {
      row = updated_plane new now p;
      found = find_plane-map new.id (updated_plane new now) rows (updated_plane-id new now) n;
      state = rw at refl;
      version = inr ((λ m. cc (n, m)), rw at refl);
    }

pub update-Updated :
    (new : ControlPlaneState) (now : ℕ) (rows : List ControlPlaneState)
    → (update_control_plane_state_occ new now rows).0 ≡ true
    → Updated new rows (update_control_plane_state_occ new now rows).1
unfolding update_control_plane_state_occ
update-Updated new now rows done = elim (Option-cases (find_plane new.id rows)) [
  | inl n ↦ elim (Bool-cases (nat_eq new.version 1)) [
    | inr e ↦ absurd (cc (rw (n, e) at done))
    | inl e ↦
        rw (n, e)
          (record {
            row = new;
            found = find_plane-append new.id rows new n (eq_refl new.id);
            state = refl;
            version = inl (n, refl);
          })
  ]
  | inr (p, n) ↦ elim (Bool-cases (nat_eq p.version new.version)) [
    | inr e ↦ absurd (cc (rw (n, e) at done))
    | inl e ↦ rw (n, e) (Updated-found new now rows n e)
  ]
]

any_at :
    (id : String) (version : ℕ) (rows : List ControlPlaneState) {p : ControlPlaneState}
    → find_plane id rows ≡ some p
    → nat_eq p.version version ≡ true
    → any (plane_at id version) rows ≡ true
any_at id version [] h e = cc
any_at id version (x ∷ xs) {p} h e = elim (Bool-cases (x.id == id)) [
  | inl m ↦
      let g : nat_eq x.version version ≡ true = rw (← some_injective (rw m at h)) e in
      rw (m, g) refl
  | inr m ↦ rw m (any_at id version xs (rw m at h) e)
]

second_succeeds_iff :
    {new : ControlPlaneState} (other : ControlPlaneState) (later : ℕ)
    {rows after : List ControlPlaneState}
    → Updated new rows after
    → other.id ≡ new.id
    → other.version ≡ new.version
    → ((update_control_plane_state_occ other later after).0 ≡ true)
      ↔ (find_plane new.id rows ≡ none)
unfolding update_control_plane_state_occ
second_succeeds_iff {new} other later {rows} {after} u same version = elim u.version [
  | inl (n, v) ↦
      let e : nat_eq u.row.version other.version ≡ true =
        (nat_eq_iff u.row.version other.version).1 (v ∙ sym version) in
      let f : find_plane other.id after ≡ some u.row = rw same u.found in
      ((λ _. n), λ _. rw (f, e) (any_at other.id other.version after f e))
  | inr (n, v) ↦
      let e : nat_eq u.row.version other.version ≡ false = ground (arith, v, version) in
      let f : find_plane other.id after ≡ some u.row = rw same u.found in
      ((λ d. absurd (cc (rw (f, e) at d))), λ m. absurd (n m))
]

-- After an update of the control plane succeeded, one by a reader of the same version succeeds exactly
-- if the first has inserted the row, which keeps the version that both have read.
pub second_update_iff :
    (new other : ControlPlaneState) (now later : ℕ) (rows : List ControlPlaneState)
    → other.id ≡ new.id
    → other.version ≡ new.version
    → (update_control_plane_state_occ new now rows).0 ≡ true
    → ((update_control_plane_state_occ other later
          (update_control_plane_state_occ new now rows).1).0
        ≡ true)
      ↔ (find_plane new.id rows ≡ none)
second_update_iff new other now later rows same version done =
    second_succeeds_iff other later (update-Updated new now rows done) same version

updated_budget-id :
    (b : ActionBudget) (now : ℕ) (x : ActionBudget)
    → (updated_budget b now x).budget_id ≡ x.budget_id
updated_budget-id b now x = elim (Bool-cases (budget_at b.budget_id b.version x)) [
  | inl m ↦ rw m refl
  | inr m ↦ rw m refl
]

find_budget-map :
    (id : String) (f : ActionBudget → ActionBudget) (rows : List ActionBudget) {b : ActionBudget}
    → ((x : ActionBudget) → (f x).budget_id ≡ x.budget_id)
    → find_budget id rows ≡ some b
    → find_budget id (map f rows) ≡ some (f b)
find_budget-map id f [] same h = cc
find_budget-map id f (x ∷ xs) same h = elim (Bool-cases (x.budget_id == id)) [
  | inl m ↦
      let g : ((f x).budget_id == id) ≡ true = ap (λ (s : String). s == id) (same x) ∙ m in
      rw g (ap some (ap f (sym (some_injective (rw m at h)))))
  | inr m ↦
      let g : ((f x).budget_id == id) ≡ false = ap (λ (s : String). s == id) (same x) ∙ m in
      rw g (find_budget-map id f xs same (rw m at h))
]

any-budget_at :
    (id : String) (version : ℕ) (rows : List ActionBudget) {b : ActionBudget}
    → find_budget id rows ≡ some b
    → nat_eq b.version version ≡ true
    → any (budget_at id version) rows ≡ true
any-budget_at id version [] h e = cc
any-budget_at id version (x ∷ xs) h e = elim (Bool-cases (x.budget_id == id)) [
  | inl m ↦
      let g : nat_eq x.version version ≡ true = rw (← some_injective (rw m at h)) e in
      rw (m, g) refl
  | inr m ↦ rw m (any-budget_at id version xs (rw m at h) e)
]

charged_budget :
    (enc : Encoders) (q : Request) (db : Database) {b : ActionBudget}
    → (evaluate_and_claim enc q db).0.status ≡ allowed
    → find_budget q.budget_id db.budgets ≡ some b
    → find_budget q.budget_id (evaluate_and_claim enc q db).1.budgets ≡ some (spent_budget b q)
charged_budget enc q db {b} h f =
    let c = allowed_claims enc q db h in
    let same : c.budget ≡ b = sym (some_injective (sym c.found ∙ f)) in
    let e : (q.budget_id == q.budget_id) ≡ true = eq_refl q.budget_id in
    budget_after enc q db q.budget_id c
    ∙ rw e (ap some (ap (λ (x : ActionBudget). spent_budget x q) same))

-- What a budget was before the gate allowed a request can still be written by `update_budget_occ`
-- afterwards, since the gate leaves the version as it was: the call succeeds, and the charge of the
-- count and of the amount is undone.
pub charge_overwritten :
    (enc : Encoders) (q : Request) (db : Database) (now : ℕ) {b : ActionBudget}
    → (evaluate_and_claim enc q db).0.status ≡ allowed
    → find_budget q.budget_id db.budgets ≡ some b
    → let (done, after) = update_budget_occ b now (evaluate_and_claim enc q db).1.budgets in
      (done ≡ true)
      × ((x : ActionBudget) × (find_budget q.budget_id after ≡ some x)
          × (x.count_used ≡ b.count_used)
          × (x.monetary_used ≡ b.monetary_used))
unfolding update_budget_occ
charge_overwritten enc q db now {b} h f =
    let rows = (evaluate_and_claim enc q db).1.budgets in
    let m : (b.budget_id == q.budget_id) ≡ true = find_budget_id q.budget_id db.budgets f in
    let id : b.budget_id ≡ q.budget_id = (eq_iff b.budget_id q.budget_id).0 m in
    let v : nat_eq b.version b.version ≡ true = (nat_eq_iff b.version b.version).1 refl in
    let g = charged_budget enc q db h f in
    let own : find_budget b.budget_id rows ≡ some (spent_budget b q) =
      ap (λ (k : String). find_budget k rows) id ∙ g in
    let at : budget_at b.budget_id b.version (spent_budget b q) ≡ true =
      rw (eq_refl b.budget_id) v in
    (
      any-budget_at b.budget_id b.version rows own v,
      (
        updated_budget b now (spent_budget b q),
        find_budget-map q.budget_id (updated_budget b now) rows (updated_budget-id b now) g,
        rw at refl,
        rw at refl,
      ),
    )
