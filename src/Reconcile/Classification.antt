-- ===== src/Reconcile/Classification.antt =====
-- What each classification of `reconcile` (src/reconciliation/engine.py) means.
use financial_control_engine.Base.{
  ok_injective, String, ◌==◌, ◌≡◌, ◌≢◌, ◌↔◌, ◌⊎◌, inl, inr, refl, true, false, ◌&&◌, Option, none,
  some, ok, err, if◌then◌else◌, arith, Bool-cases, strip, upper, eq_iff,
}
use financial_control_engine.Base.Int.{ℤ, pos, ◌≤ℤ◌, ltb_ℤ, leb_ℤ, eq_ℤ_iff}
use financial_control_engine.StateEngine.Models.{
  refunded, failed, verified, contradicted, executed, not_executed, ReconstructedState,
}
use financial_control_engine.Reconcile.Models.{
  Datetime, naive, aware, DiscrepancyType, match, in_flight_pending, epistemic_stalemate,
  absent_execution, excess_effect, ExpectedRefund, reconciliation_deadline, ReconciliationResult,
}
use financial_control_engine.Reconcile.Engine.{
  ReconcileError, mismatched_intent, reconcile, reconcile_correlated, is_executed, amount_differs,
  normalized, has_text,
}

-- The deadline has passed, and absence is verified: nothing else proves it.
abbrev pub IsProvenAbsent : ExpectedRefund → ReconstructedState → ℤ → Type 0
IsProvenAbsent e s now =
    (reconciliation_deadline e ≤ℤ now)
    × (s.knowledge_state ≡ verified)
    × (s.execution ≡ some not_executed)
    × (s.observed_financial_state ≡ none)

abbrev pub ProvesAbsence : Option ExpectedRefund → Option ReconstructedState → Datetime → Type 0
ProvesAbsence (some e) (some s) (aware now) = IsProvenAbsent e s now
ProvesAbsence _ _ _ = ⊥

correlated_absent :
    (e : ExpectedRefund) (s : ReconstructedState) (now : ℤ) (amount : Option ℤ)
    (currency : Option String) (executions : ℤ)
    → ((reconcile_correlated e s now amount currency executions).discrepancy_type
        ≡ absent_execution)
      ↔ IsProvenAbsent e s now
unfolding reconcile_correlated
correlated_absent e s now amount currency executions = ground arith

-- The result of a call that did not raise is ABSENT_EXECUTION exactly when an expectation and a
-- state were given, the deadline has passed, and the state is VERIFIED, NOT_EXECUTED and has no
-- financial state.
pub absent_execution_iff :
    (e : Option ExpectedRefund) (s : Option ReconstructedState) (at : Datetime) (amount : Option ℤ)
    (currency : Option String) (executions : ℤ) {r : ReconciliationResult}
    → reconcile e s at amount currency executions ≡ ok r
    → (r.discrepancy_type ≡ absent_execution) ↔ ProvesAbsence e s at
unfolding reconcile
absent_execution_iff none none (aware now) amount currency executions h = cc
absent_execution_iff none none (naive now) amount currency executions h = cc
absent_execution_iff none (some s) (naive now) amount currency executions h = cc
absent_execution_iff (some e) s (naive now) amount currency executions h = cc
absent_execution_iff none (some s) (aware now) amount currency executions h =
    rw (ok_injective h) (ground arith)
absent_execution_iff (some e) none (aware now) amount currency executions h =
    rw (ok_injective h) (ground arith)
absent_execution_iff (some e) (some s) (aware now) amount currency executions h =
    elim (Bool-cases (s.entity_id == e.refund_intent_id)) [
      | inl c ↦ rw (ok_injective (rw c at h)) (correlated_absent e s now amount currency executions)
      | inr c ↦ cc (rw c at h)
    ]

-- The provider's verified report agrees with the expectation in every part that it gives.
abbrev pub IsSatisfied : ExpectedRefund → ReconstructedState → Option ℤ → Option String → ℤ → Type 0
IsSatisfied e s amount currency executions =
    (s.knowledge_state ≡ verified)
    × ((s.execution ≡ some executed) ⊎ (s.observed_financial_state ≡ some refunded))
    × (s.observed_financial_state ≢ some failed)
    × (executions ≤ℤ pos 1)
    × ((has_text currency ≡ false) ⊎ (normalized currency ≡ upper (strip e.currency)))
    × ((amount ≡ none) ⊎ (amount ≡ some e.amount))

amount_differs_iff :
    (a : Option ℤ) (b : ℤ) → (amount_differs a b ≡ false) ↔ ((a ≡ none) ⊎ (a ≡ some b))
unfolding amount_differs
amount_differs_iff none b = (λ h. inl refl, λ h. refl)
amount_differs_iff (some a) b = ground (arith, eq_ℤ_iff a b)

correlated_match :
    (e : ExpectedRefund) (s : ReconstructedState) (now : ℤ) (amount : Option ℤ)
    (currency : Option String) (executions : ℤ)
    → ((reconcile_correlated e s now amount currency executions).discrepancy_type ≡ match)
      ↔ IsSatisfied e s amount currency executions
unfolding reconcile_correlated
correlated_match e s now amount currency executions = ground (
  arith,
  eq_iff (normalized currency) (upper (strip e.currency)),
  amount_differs_iff amount e.amount,
)

-- An expectation and a state of the same intent are classified MATCH exactly when the state is
-- VERIFIED, says EXECUTED or REFUNDED and not FAILED, at most one execution was counted, and the
-- currency (trimmed, in capitals) and the amount agree wherever they were observed.
pub match_iff :
    (e : ExpectedRefund) (s : ReconstructedState) (now : ℤ) (amount : Option ℤ)
    (currency : Option String) (executions : ℤ) {r : ReconciliationResult}
    → reconcile (some e) (some s) (aware now) amount currency executions ≡ ok r
    → (r.discrepancy_type ≡ match) ↔ IsSatisfied e s amount currency executions
unfolding reconcile
match_iff e s now amount currency executions h =
    elim (Bool-cases (s.entity_id == e.refund_intent_id)) [
      | inl c ↦ rw (ok_injective (rw c at h)) (correlated_match e s now amount currency executions)
      | inr c ↦ cc (rw c at h)
    ]

-- What is left of a CONTRADICTED state: never a match, a mismatch or a proof of absence.
abbrev pub contradicted_type : ExpectedRefund → ReconstructedState → ℤ → ℤ → DiscrepancyType
contradicted_type e s now executions =
    if ltb_ℤ (pos 1) executions && is_executed s
    then excess_effect
    else if leb_ℤ (reconciliation_deadline e) now
    then epistemic_stalemate
    else in_flight_pending

-- A CONTRADICTED state is classified EXCESS_EFFECT if more than one execution was counted and it
-- says EXECUTED or REFUNDED, and otherwise by the deadline alone: IN_FLIGHT_PENDING before it and
-- EPISTEMIC_STALEMATE from then on.
pub contradicted_classified :
    (e : ExpectedRefund) (s : ReconstructedState) (now : ℤ) (amount : Option ℤ)
    (currency : Option String) (executions : ℤ) {r : ReconciliationResult}
    → s.knowledge_state ≡ contradicted
    → reconcile (some e) (some s) (aware now) amount currency executions ≡ ok r
    → r.discrepancy_type ≡ contradicted_type e s now executions
unfolding reconcile
contradicted_classified e s now amount currency executions k h =
    elim (Bool-cases (s.entity_id == e.refund_intent_id)) [
      | inl c ↦ rw (ok_injective (rw c at h)) (ground arith)
      | inr c ↦ cc (rw c at h)
    ]

-- The arguments that are refused.
abbrev pub Rejected : Option ExpectedRefund → Option ReconstructedState → Datetime → Type 0
Rejected none none at = Unit
Rejected e s (naive t) = Unit
Rejected (some e) (some s) (aware t) = s.entity_id ≢ e.refund_intent_id
Rejected none (some s) (aware t) = ⊥
Rejected (some e) none (aware t) = ⊥

-- The call raises exactly when nothing is given, the timestamp has no time zone, or the state is of
-- another intent.
pub reconcile_raises_iff :
    (e : Option ExpectedRefund) (s : Option ReconstructedState) (at : Datetime) (amount : Option ℤ)
    (currency : Option String) (executions : ℤ)
    → ((x : ReconcileError) × (reconcile e s at amount currency executions ≡ err x))
      ↔ Rejected e s at
unfolding reconcile
reconcile_raises_iff none none (naive t) amount currency executions = (λ h. tt, λ h. (_, refl))
reconcile_raises_iff none none (aware t) amount currency executions = (λ h. tt, λ h. (_, refl))
reconcile_raises_iff none (some s) (naive t) amount currency executions = (λ h. tt, λ h. (_, refl))
reconcile_raises_iff (some e) none (naive t) amount currency executions = (λ h. tt, λ h. (_, refl))
reconcile_raises_iff (some e) (some s) (naive t) amount currency executions =
    (λ h. tt, λ h. (_, refl))
reconcile_raises_iff none (some s) (aware t) amount currency executions =
    (λ h. cc (h.1), λ h. absurd h)
reconcile_raises_iff (some e) none (aware t) amount currency executions =
    (λ h. cc (h.1), λ h. absurd h)
reconcile_raises_iff (some e) (some s) (aware t) amount currency executions =
    elim (Bool-cases (s.entity_id == e.refund_intent_id)) [
      | inl c ↦
          (λ h. cc (rw c at h.1), λ n. absurd (n ((eq_iff s.entity_id e.refund_intent_id).0 c)))
      | inr c ↦ (
        λ h q. cc (c, (eq_iff s.entity_id e.refund_intent_id).1 q),
        λ n. (mismatched_intent, rw c),
      )
    ]

correlated_actionable :
    (e : ExpectedRefund) (s : ReconstructedState) (now : ℤ) (amount : Option ℤ)
    (currency : Option String) (executions : ℤ)
    → let r = reconcile_correlated e s now amount currency executions in
      (r.is_actionable ≡ true)
      ↔ ((r.discrepancy_type ≡ absent_execution) ⊎ (r.discrepancy_type ≡ epistemic_stalemate))
unfolding reconcile_correlated
correlated_actionable e s now amount currency executions = ground arith

-- A result is actionable exactly when it belongs to an expectation and is ABSENT_EXECUTION or
-- EPISTEMIC_STALEMATE; so no other classification triggers an action, and no orphan does.
pub actionable_iff :
    (e : Option ExpectedRefund) (s : Option ReconstructedState) (at : Datetime) (amount : Option ℤ)
    (currency : Option String) (executions : ℤ) {r : ReconciliationResult}
    → reconcile e s at amount currency executions ≡ ok r
    → (r.is_actionable ≡ true) ↔ (
        (e ≢ none)
        × ((r.discrepancy_type ≡ absent_execution) ⊎ (r.discrepancy_type ≡ epistemic_stalemate)))
unfolding reconcile
actionable_iff none none (aware now) amount currency executions h = cc
actionable_iff none none (naive now) amount currency executions h = cc
actionable_iff none (some s) (naive now) amount currency executions h = cc
actionable_iff (some e) s (naive now) amount currency executions h = cc
actionable_iff none (some s) (aware now) amount currency executions h =
    rw (ok_injective h) (ground arith)
actionable_iff (some e) none (aware now) amount currency executions h =
    rw (ok_injective h) (ground arith)
actionable_iff (some e) (some s) (aware now) amount currency executions h =
    elim (Bool-cases (s.entity_id == e.refund_intent_id)) [
      | inl c ↦
          let k = correlated_actionable e s now amount currency executions in
          rw (ok_injective (rw c at h)) (λ a. ((λ q. cc q), k.0 a), λ p. k.1 p.1)
      | inr c ↦ cc (rw c at h)
    ]
