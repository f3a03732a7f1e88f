-- ===== src/Governance/Idempotency.antt =====
-- The idempotency key as the guard against a second mutation (src/engine/governance_gate.py,
-- src/engine/actuation_key.py).
use financial_control_engine.Base.{
  ℕ, ◌≡◌, ◌≢◌, inl, inr, refl, ap, ◌∙◌, Bool, true, false, ◌||◌, List, [], ◌∷◌, ◌++◌, any, map,
  arith, All, All-append, Bool-cases, eq_iff,
}
use financial_control_engine.Lifecycle.{IncidentState}
use financial_control_engine.Incidents.Records.{IncidentRecord, Key}
use financial_control_engine.Core.Actuation.{ActuationRecord, Encoders}
use financial_control_engine.Governance.Models.{allowed}
use financial_control_engine.Governance.Gate.{
  Database, claimable, Request, request_key, is_taken, pending_record, evaluate_and_claim,
}
use financial_control_engine.Governance.Claims.{allowed_claims, blocked_unchanged}
use financial_control_engine.Governance.Budgets.{
  is_allowed, is_allowed_iff, allowed_of_is_allowed, evaluate_all,
}

-- The unique columns of the actuation table.
abbrev pub UniqueRecords : List ActuationRecord → Type 0
UniqueRecords [] = Unit
UniqueRecords (x ∷ xs) = All (λ (y : ActuationRecord). is_taken x y ≡ false) xs × UniqueRecords xs

is_taken_comm : (x y : ActuationRecord) → is_taken x y ≡ is_taken y x
is_taken_comm x y = ground (
  arith,
  eq_iff x.idempotency_key y.idempotency_key,
  eq_iff y.idempotency_key x.idempotency_key,
  eq_iff x.record_id y.record_id,
  eq_iff y.record_id x.record_id,
)

append-UniqueRecords :
    (x : ActuationRecord) (l : List ActuationRecord)
    → any (is_taken x) l ≡ false
    → UniqueRecords l
    → UniqueRecords (l ++ x ∷ [])
append-UniqueRecords x [] h u = (tt, tt)
append-UniqueRecords x (y ∷ ys) h u = elim (Bool-cases (is_taken x y)) [
  | inl e ↦ cc (rw e at h)
  | inr e ↦ (
    All-append (λ z. is_taken y z ≡ false) ys (x ∷ []) u.0 ((is_taken_comm y x ∙ e), tt),
    append-UniqueRecords x ys (rw e at h) u.1,
  )
]

-- The keys and ids of the actuation records stay unique, whatever is requested of the gate.
pub evaluate-UniqueRecords :
    (enc : Encoders) (q : Request) (db : Database)
    → UniqueRecords db.actuations
    → UniqueRecords (evaluate_and_claim enc q db).1.actuations
evaluate-UniqueRecords enc q db h =
    elim (Bool-cases (is_allowed (evaluate_and_claim enc q db).0.status)) [
      | inl e ↦
          let c = allowed_claims enc q db (allowed_of_is_allowed _ e) in
          rw (c.recorded) (append-UniqueRecords (pending_record enc q) db.actuations c.fresh h)
      | inr e ↦ rw (blocked_unchanged enc q db (is_allowed_iff _ e)) h
    ]

any-append {ℓ} :
    {A : Type ℓ} (p : A → Bool) (xs ys : List A) → any p (xs ++ ys) ≡ (any p xs || any p ys)
any-append p [] ys = refl
any-append p (x ∷ xs) ys = ground (arith, any-append p xs ys)

any_appended {ℓ} :
    {A : Type ℓ} (p : A → Bool) (xs : List A) (x : A) → p x ≡ true → any p (xs ++ x ∷ []) ≡ true
any_appended p [] x h = rw h refl
any_appended p (y ∷ ys) x h = ground (arith, any_appended p ys x h)

same_key-is_taken :
    (x y : ActuationRecord) → x.idempotency_key ≡ y.idempotency_key → is_taken x y ≡ true
same_key-is_taken x y h = ground (arith, eq_iff y.idempotency_key x.idempotency_key)

evaluate_keeps :
    (enc : Encoders) (q : Request) (p : ActuationRecord → Bool) (db : Database)
    → any p db.actuations ≡ true
    → any p (evaluate_and_claim enc q db).1.actuations ≡ true
evaluate_keeps enc q p db h =
    elim (Bool-cases (is_allowed (evaluate_and_claim enc q db).0.status)) [
      | inl e ↦
          let c = allowed_claims enc q db (allowed_of_is_allowed _ e) in
          rw (c.recorded, any-append p db.actuations (pending_record enc q ∷ []), h) refl
      | inr e ↦ rw (blocked_unchanged enc q db (is_allowed_iff _ e)) h
    ]

evaluate_all_keeps :
    (enc : Encoders) (qs : List Request) (p : ActuationRecord → Bool) (db : Database)
    → any p db.actuations ≡ true
    → any p (evaluate_all enc qs db).1.actuations ≡ true
unfolding evaluate_all
evaluate_all_keeps enc [] p db h = h
evaluate_all_keeps enc (q ∷ qs) p db h =
    evaluate_all_keeps enc qs p (evaluate_and_claim enc q db).1 (evaluate_keeps enc q p db h)

-- The key depends on the identity and the intent alone.
pending_key :
    (enc : Encoders) (q p : Request)
    → p.execution_identity ≡ q.execution_identity
    → p.intent ≡ q.intent
    → (pending_record enc p).idempotency_key ≡ (pending_record enc q).idempotency_key
unfolding pending_record
pending_key enc q p i t = rw (i, t) refl

-- An intent is claimed at most once for an execution: after a request is allowed, and whatever is
-- requested in between, no request with the same execution identity and the same intent is allowed,
-- at whatever version, on whatever budget and for whatever discrepancy.
pub intent_claimed_once :
    (enc : Encoders) (q p : Request) (between : List Request) (db : Database)
    → (evaluate_and_claim enc q db).0.status ≡ allowed
    → p.execution_identity ≡ q.execution_identity
    → p.intent ≡ q.intent
    → let after = (evaluate_all enc between (evaluate_and_claim enc q db).1).1 in
      (evaluate_and_claim enc p after).0.status ≢ allowed
intent_claimed_once enc q p between db h i t again =
    let first = allowed_claims enc q db h in
    let after = (evaluate_all enc between (evaluate_and_claim enc q db).1).1 in
    let second = allowed_claims enc p after again in
    let held : any (is_taken (pending_record enc p)) after.actuations ≡ true =
      evaluate_all_keeps enc between (is_taken (pending_record enc p))
        (evaluate_and_claim enc q db).1
        (rw (first.recorded) (
          any_appended (is_taken (pending_record enc p)) db.actuations (pending_record enc q) (
            same_key-is_taken (pending_record enc p) (pending_record enc q)
              (pending_key enc q p i t)))) in
    cc (held, second.fresh)

claimable-map :
    (k : Key) (v : ℕ) (s : IncidentState) (l : List IncidentRecord)
    → any (claimable k v) (map (λ (r : IncidentRecord). record r { state = s }) l)
      ≡ any (claimable k v) l
claimable-map k v s [] = refl
claimable-map k v s (r ∷ rs) = ap (λ b. claimable k v r || b) (claimable-map k v s rs)

-- The gate reads no state: whatever states the incidents are in, RESOLVED among them, the decision is
-- the same.
pub decision_ignores_states :
    (enc : Encoders) (q : Request) (s : IncidentState) (db : Database)
    → (evaluate_and_claim enc q (record db {
      incidents = map (λ (r : IncidentRecord). record r { state = s }) db.incidents;
    })).0
      ≡ (evaluate_and_claim enc q db).0
unfolding evaluate_and_claim
decision_ignores_states enc q s db =
    ground (arith, claimable-map (request_key q) q.incident_version s db.incidents)
