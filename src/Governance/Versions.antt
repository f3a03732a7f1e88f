-- ===== src/Governance/Versions.antt =====
-- The version of an incident as a ticket that the gate accepts once
-- (src/engine/governance_gate.py).
use financial_control_engine.Base.{
  ℕ, ◌≤◌, ◌<◌, ◌≡◌, ◌≢◌, inl, inr, refl, true, false, List, [], ◌∷◌, any, arith, All, ◌∙◌,
  Bool-cases,
}
use financial_control_engine.Lifecycle.{IncidentState, actuation_pending}
use financial_control_engine.Incidents.Records.{
  IncidentRecord, Key, has_key, key_of, DistinctKeys, has_key-eq,
}
use financial_control_engine.Core.Actuation.{Encoders}
use financial_control_engine.Governance.Models.{allowed}
use financial_control_engine.Governance.Gate.{
  Database, claimable, claim_rows, Request, request_key, evaluate_and_claim,
}
use financial_control_engine.Governance.Claims.{allowed_claims, blocked_unchanged}
use financial_control_engine.Governance.Budgets.{
  is_allowed, is_allowed_iff, allowed_of_is_allowed, evaluate_all,
}

-- Every row with the key is past a version.
abbrev pub Past : Key → ℕ → IncidentRecord → Type 0
Past k v r = has_key k r ≡ true → v < r.version

abbrev AtLeast : Key → ℕ → IncidentRecord → Type 0
AtLeast k v r = has_key k r ≡ true → v ≤ r.version

-- Where no row has the key, none can be claimed.
unmatched :
    (k : Key) (v : ℕ) (r : IncidentRecord) (l : List IncidentRecord)
    → has_key k r ≡ true
    → All (λ (x : IncidentRecord). has_key (key_of r) x ≡ false) l
    → (any (claimable k v) l ≡ false) × All (AtLeast k v) l
unmatched k v r [] h d = (refl, tt)
unmatched k v r (x ∷ xs) h d =
    let (a, b) = unmatched k v r xs h d.1 in
    let e : has_key k x ≡ false = has_key-eq k r x h ∙ d.0 in (rw (e, a), ((λ q. cc (e, q)), b))

-- With unique keys, a row that can be claimed is the only one with its key.
claimable_least :
    (k : Key) (v : ℕ) (l : List IncidentRecord)
    → DistinctKeys l
    → any (claimable k v) l ≡ true
    → All (AtLeast k v) l
claimable_least k v [] d h = tt
claimable_least k v (r ∷ rs) d h = elim (Bool-cases (has_key k r)) [
  | inl e ↦ let (a, b) = unmatched k v r rs e d.0 in ((λ _. ground (arith, a, e)), b)
  | inr e ↦ ((λ q. cc (e, q)), claimable_least k v rs d.1 (rw e at h))
]

claim_rows-Past :
    (k : Key) (v : ℕ) (s : IncidentState) (l : List IncidentRecord)
    → All (AtLeast k v) l
    → All (Past k v) (claim_rows k v s l)
unfolding claim_rows
claim_rows-Past k v s [] h = tt
claim_rows-Past k v s (r ∷ rs) h = ((λ q. ground (arith, h.0)), claim_rows-Past k v s rs h.1)

-- A claim on any key leaves a version that is past behind.
claim_rows-keeps :
    (k j : Key) (v w : ℕ) (s : IncidentState) (l : List IncidentRecord)
    → All (Past k v) l
    → All (Past k v) (claim_rows j w s l)
unfolding claim_rows
claim_rows-keeps k j v w s [] h = tt
claim_rows-keeps k j v w s (r ∷ rs) h =
    ((λ q. ground (arith, h.0)), claim_rows-keeps k j v w s rs h.1)

Past-not_claimable :
    (k : Key) (v : ℕ) (l : List IncidentRecord) → All (Past k v) l → any (claimable k v) l ≡ false
Past-not_claimable k v [] h = refl
Past-not_claimable k v (r ∷ rs) h = elim (Bool-cases (has_key k r)) [
  | inl e ↦ rw (Past-not_claimable k v rs h.1) (ground (arith, h.0 e))
  | inr e ↦ rw (e, Past-not_claimable k v rs h.1) refl
]

module _ (enc : Encoders) (k : Key) (v : ℕ) where
  evaluate-Past :
      (q : Request) (db : Database)
      → All (Past k v) db.incidents
      → All (Past k v) (evaluate_and_claim enc q db).1.incidents
  evaluate-Past q db h = elim (Bool-cases (is_allowed (evaluate_and_claim enc q db).0.status)) [
    | inl e ↦
        let c = allowed_claims enc q db (allowed_of_is_allowed _ e) in
        rw (c.moved)
          (claim_rows-keeps k (request_key q) v q.incident_version actuation_pending db.incidents h)
    | inr e ↦ rw (blocked_unchanged enc q db (is_allowed_iff _ e)) h
  ]

  evaluate_all-Past :
      (qs : List Request) (db : Database)
      → All (Past k v) db.incidents
      → All (Past k v) (evaluate_all enc qs db).1.incidents
  unfolding evaluate_all
  evaluate_all-Past [] db h = h
  evaluate_all-Past (q ∷ qs) db h =
      evaluate_all-Past qs (evaluate_and_claim enc q db).1 (evaluate-Past q db h)

-- A version of an incident is claimed at most once: after a request is allowed, and whatever is
-- requested in between, no request for the same incident at the same version is allowed.
pub version_claimed_once :
    (enc : Encoders) (q p : Request) (between : List Request) (db : Database)
    → DistinctKeys db.incidents
    → (evaluate_and_claim enc q db).0.status ≡ allowed
    → request_key p ≡ request_key q
    → p.incident_version ≡ q.incident_version
    → let after = (evaluate_all enc between (evaluate_and_claim enc q db).1).1 in
      (evaluate_and_claim enc p after).0.status ≢ allowed
version_claimed_once enc q p between db d h same version again =
    let first = allowed_claims enc q db h in
    let after = (evaluate_all enc between (evaluate_and_claim enc q db).1).1 in
    let second = allowed_claims enc p after again in
    let past : All (Past (request_key q) q.incident_version) after.incidents =
      evaluate_all-Past enc (request_key q) q.incident_version between
        (evaluate_and_claim enc q db).1
        (rw (first.moved) (
          claim_rows-Past (request_key q) q.incident_version actuation_pending db.incidents (
            claimable_least (request_key q) q.incident_version db.incidents d first.at_version))) in
    let gone = Past-not_claimable (request_key q) q.incident_version after.incidents past in
    cc (gone, rw (same, version) at second.at_version)
