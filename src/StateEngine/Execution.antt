-- ===== src/StateEngine/Execution.antt =====
-- What a reconstructed state says of execution, against the observations it was made from
-- (src/state/engine.py).
use financial_control_engine.Base.{
  ◌≡◌, refl, ◌≢◌, ◌⊎◌, inl, inr, Bool, true, false, ◌||◌, List, [], ◌∷◌, Option, none, some, ok,
  All, Bool-cases, arith, ltb, length, String, any, upper, ◌==◌, is_empty, eq_iff, text_ne, ap, sym,
  ◌∙◌, some_injective, ◌↔◌,
}
use financial_control_engine.Base.Int.{ℤ}
use financial_control_engine.StateEngine.Models.{
  parse_financial_state, verified, not_executed, EntityType, ProviderObservation,
  ReconstructedState,
}
use financial_control_engine.StateEngine.Ordering.{insert_observation, sort_observations, key_le}
use financial_control_engine.StateEngine.Reconstruct.{
  confidence_is, status_claim, read_status, Scan, start, Claim, claims_not_executed,
  claims_executed, claims_nothing, claims_status, claim_of, scan_claim, scan_observations,
  terminals_of, scope_error, conclude, reconstruct_state, ScopeError, after_scope, no_observations,
}

-- The observation is evidence that the entity's operation was executed.
abbrev is_execution_claim : Claim → Bool
is_execution_claim claims_executed = true
is_execution_claim (claims_status f) = true
is_execution_claim _ = false

-- A status of `ObservedFinancialState`, in whatever case it is written.
abbrev pub is_concrete : Option String → Bool
is_concrete none = false
is_concrete (some s) =
    any (λ t. upper s == t) ("CAPTURED" ∷ "REFUNDED" ∷ "FAILED" ∷ "PROCESSING" ∷ "VOIDED" ∷ [])

-- An observation shows no execution if it is not an answer AUTHORITATIVE_EXECUTED, and has no concrete
-- status unless it is an answer AUTHORITATIVE_NOT_EXECUTED, which the source reads before the status.
pub record ShowsNoExecution (obs : ProviderObservation) : Type 0 where
  pub not_confirmed : obs.payload.query_confidence ≢ some "AUTHORITATIVE_EXECUTED"
  pub bare :
      (obs.payload.query_confidence ≡ some "AUTHORITATIVE_NOT_EXECUTED")
      ⊎ (is_concrete obs.payload.status ≡ false)

confidence_cases : (c : Option String) (v : String) → (confidence_is c v ≡ true) ↔ (c ≡ some v)
confidence_cases none v = ((λ h. cc), (λ h. cc))
confidence_cases (some c) v =
    ((λ h. ap some ((eq_iff c v).0 h)), (λ h. (eq_iff c v).1 (sym (some_injective h))))

unparsed :
    (s : String)
    → is_execution_claim (status_claim (parse_financial_state s)) ≡ false
    → any (λ t. s == t) ("CAPTURED" ∷ "REFUNDED" ∷ "FAILED" ∷ "PROCESSING" ∷ "VOIDED" ∷ []) ≡ false
unfolding parse_financial_state
unparsed s h = ground (arith, h)

status-is_concrete :
    (status : Option String)
    → is_execution_claim (read_status status) ≡ false
    → is_concrete status ≡ false
unfolding upper
status-is_concrete none h = refl
status-is_concrete (some s) h = elim (Bool-cases (is_empty s)) [
  | inl e ↦ let empty : s ≡ "" = (eq_iff s "").0 e in rw empty refl
  | inr e ↦ unparsed (upper s) (rw e at h)
]

claim-ShowsNoExecution :
    (obs : ProviderObservation)
    → is_execution_claim (claim_of obs.payload) ≡ false
    → ShowsNoExecution obs
unfolding claim_of
claim-ShowsNoExecution obs h =
    let c = obs.payload.query_confidence in
    elim (Bool-cases (confidence_is c "AUTHORITATIVE_NOT_EXECUTED")) [
      | inl e ↦
          let said = (confidence_cases c "AUTHORITATIVE_NOT_EXECUTED").0 e in
          record {
            not_confirmed = λ k.
                text_ne "AUTHORITATIVE_EXECUTED" "AUTHORITATIVE_NOT_EXECUTED" refl
                  (some_injective (sym said ∙ k));
            bare = inl said;
          }
      | inr e ↦ elim (Bool-cases (confidence_is c "AUTHORITATIVE_EXECUTED")) [
        | inl k ↦ absurd (cc (rw (e, k) at h))
        | inr k ↦ record {
          not_confirmed = λ x. cc (k, (confidence_cases c "AUTHORITATIVE_EXECUTED").1 x);
          bare = inr (status-is_concrete obs.payload.status (rw (e, k) at h));
        }
      ]
    ]

-- No execution has been seen so far.
abbrev unseen : Scan → Bool
unseen s = elim (s.seen_concrete || s.latest_is_executed) [ true ↦ false | false ↦ true ]

-- The state of the loop agrees with its flags.
record IsConsistent (s : Scan) : Type 0 where
  absent : s.execution ≡ some not_executed → unseen s ≡ true
  absent_bare : s.execution ≡ some not_executed → s.financial_state ≡ none
  executed_verified : s.knowledge_state ≡ verified → s.execution ≢ none
  verified_executed : s.execution ≢ none → s.knowledge_state ≡ verified

scan_claim-IsConsistent : (c : Claim) (s : Scan) → IsConsistent s → IsConsistent (scan_claim c s)
unfolding scan_claim
scan_claim-IsConsistent claims_nothing s h = h
scan_claim-IsConsistent claims_executed s h = ground arith
scan_claim-IsConsistent claims_not_executed s h = ground arith
scan_claim-IsConsistent (claims_status f) s h = ground arith

scan_claim-unseen :
    (c : Claim) (s : Scan)
    → unseen (scan_claim c s) ≡ true
    → (unseen s ≡ true) × (is_execution_claim c ≡ false)
unfolding scan_claim
scan_claim-unseen claims_nothing s h = (h, refl)
scan_claim-unseen claims_executed s h = ground arith
scan_claim-unseen claims_not_executed s h = ground arith
scan_claim-unseen (claims_status f) s h = ground arith

scan_observations-IsConsistent :
    (s : Scan) (l : List ProviderObservation)
    → IsConsistent s
    → IsConsistent (scan_observations s l)
unfolding scan_observations
scan_observations-IsConsistent s [] h = h
scan_observations-IsConsistent s (o ∷ os) h =
    scan_observations-IsConsistent (scan_claim (claim_of o.payload) s) os
      (scan_claim-IsConsistent (claim_of o.payload) s h)

scan_observations-unseen :
    (s : Scan) (l : List ProviderObservation)
    → unseen (scan_observations s l) ≡ true
    → (unseen s ≡ true) × All ShowsNoExecution l
unfolding scan_observations
scan_observations-unseen s [] h = (h, tt)
scan_observations-unseen s (o ∷ os) h =
    let (u, rest) = scan_observations-unseen (scan_claim (claim_of o.payload) s) os h in
    let (v, quiet) = scan_claim-unseen (claim_of o.payload) s u in
    (v, (claim-ShowsNoExecution o quiet, rest))

-- Sorting neither adds nor loses an observation.
All-insert_observation {κ} :
    (P : ProviderObservation → Type κ) (x : ProviderObservation) (l : List ProviderObservation)
    → All P (insert_observation x l)
    → P x × All P l
unfolding insert_observation
All-insert_observation P x [] h = h
All-insert_observation P x (y ∷ ys) h = elim (Bool-cases (key_le x y)) [
  | inl e ↦ rw e at h
  | inr e ↦
      let h' : P y × All P (insert_observation x ys) = rw e at h in
      let (px, pys) = All-insert_observation P x ys h'.1 in (px, (h'.0, pys))
]

All-sort_observations {κ} :
    (P : ProviderObservation → Type κ) (l : List ProviderObservation)
    → All P (sort_observations l)
    → All P l
unfolding sort_observations
All-sort_observations P [] h = h
All-sort_observations P (x ∷ xs) h =
    let (px, rest) = All-insert_observation P x (sort_observations xs) h in
    (px, All-sort_observations P xs rest)

start-IsConsistent : IsConsistent start
start-IsConsistent = ground arith

pub after_scope_ok :
    (e : Option ScopeError) (t : EntityType) (i : String) (l : List ProviderObservation) (at : ℤ)
    {r : ReconstructedState}
    → after_scope e t i l at ≡ ok r
    → (e ≡ none)
      × ((l ≡ []) × (r ≡ no_observations t i at) ⊎ (r ≡ conclude t i at (sort_observations l)))
after_scope_ok none t i [] at h = (refl, inl (refl, cc))
after_scope_ok none t i (o ∷ os) at h = (refl, inr (cc))
after_scope_ok (some e) t i l at h = cc

-- A conclusion is NOT_EXECUTED only over observations that show no execution.
conclude-not_executed :
    (t : EntityType) (i : String) (at : ℤ) (l : List ProviderObservation)
    → (conclude t i at l).execution ≡ some not_executed
    → All ShowsNoExecution l
unfolding conclude
conclude-not_executed t i at l h = elim (Bool-cases (ltb 1 (length (terminals_of [] l)))) [
  | inl e ↦ cc (rw e at h)
  | inr e ↦
      let c = scan_observations-IsConsistent start l start-IsConsistent in
      (scan_observations-unseen start l (c.absent (rw e at h))).1
]

-- The two ways in which a conclusion agrees with itself.
pub record AgreesWithItself (r : ReconstructedState) : Type 0 where
  pub verified_executed : r.knowledge_state ≡ verified → r.execution ≢ none
  pub executed_verified : r.execution ≢ none → r.knowledge_state ≡ verified
  pub absent_bare : r.execution ≡ some not_executed → r.observed_financial_state ≡ none

conclude-AgreesWithItself :
    (t : EntityType) (i : String) (at : ℤ) (l : List ProviderObservation)
    → AgreesWithItself (conclude t i at l)
unfolding conclude
conclude-AgreesWithItself t i at l =
    ground (arith, scan_observations-IsConsistent start l start-IsConsistent)

module _ (entity_type : EntityType) (entity_id : String) (observations : List ProviderObservation)
    (at : ℤ) {r : ReconstructedState}
    (done : reconstruct_state entity_type entity_id observations at ≡ ok r) where
  -- A reconstructed state says NOT_EXECUTED only if no observation it was made from, in whatever
  -- order they arrived, is AUTHORITATIVE_EXECUTED, or has a concrete financial status without being
  -- AUTHORITATIVE_NOT_EXECUTED.
  pub not_executed_unseen : r.execution ≡ some not_executed → All ShowsNoExecution observations
  unfolding reconstruct_state
  not_executed_unseen h =
      elim (after_scope_ok (scope_error entity_type entity_id observations) entity_type entity_id
        observations at done).1 [
          | inl (e, f) ↦ cc
          | inr e ↦ All-sort_observations ShowsNoExecution observations (
              conclude-not_executed entity_type entity_id at (sort_observations observations)
                (rw e at h))
        ]

  -- A reconstructed state is VERIFIED exactly when it says whether the operation was executed, and
  -- one that says NOT_EXECUTED carries no financial state.
  pub reconstructed_agrees : AgreesWithItself r
  unfolding reconstruct_state
  reconstructed_agrees =
      elim (after_scope_ok (scope_error entity_type entity_id observations) entity_type entity_id
        observations at done).1 [
          | inl (e, f) ↦ rw f (ground arith)
          | inr e ↦
              rw e (
                conclude-AgreesWithItself entity_type entity_id at (sort_observations observations))
        ]
