-- ===== src/Policy/Contradictions.antt =====
-- Contradictory observations before the policy of src/engine/policy.py.
use financial_control_engine.Base.{
  String, ◌≡◌, ◌≢◌, ◌⊎◌, refl, sym, ◌∙◌, true, List, Option, inl, inr, All, arith,
}
use financial_control_engine.Base.Int.{ℤ, ◌≤ℤ◌, eq_of_parts}
use financial_control_engine.Base.Sorting.{member_all}
use financial_control_engine.Core.Models.{
  Datetime, Observation, RecoveryAction, repair_merchant_state, refund_payment, escalate,
}
use mathlib.Core.List.{Memᴰ}
use financial_control_engine.Policy.Evaluate.{obs_key, of_provider, PolicyContext, evaluate}
use financial_control_engine.Policy.Selection.{IsNewest}
use financial_control_engine.Policy.Intents.{decided}

instants_agree : (a b : ℤ) → a ≤ℤ b → b ≤ℤ a → a ≡ b
instants_agree a b h k = eq_of_parts a b (omega arith)

-- Two of the newest observations of a provider have the status of the one that is selected.
same_status :
    (provider : String) (observations : List Observation) {o : Observation} (x y : Observation)
    → IsNewest provider observations o
    → Memᴰ x observations
    → Memᴰ y observations
    → of_provider provider x ≡ true
    → of_provider provider y ≡ true
    → All (λ z. of_provider provider z ≡ true → obs_key z ≤ℤ obs_key x) observations
    → obs_key y ≡ obs_key x
    → x.canonical_status ≡ y.canonical_status
same_status provider observations {o} x y n mx my px py newest e =
    let up =
      member_all (λ z. of_provider provider z ≡ true → obs_key z ≤ℤ obs_key o) observations mx
        n.not_older px in
    let down =
      member_all (λ z. of_provider provider z ≡ true → obs_key z ≤ℤ obs_key x) observations
        n.recorded newest n.of_it in
    let k : obs_key x ≡ obs_key o = instants_agree (obs_key x) (obs_key o) up down in
    let agree = λ (z : Observation) (m : Memᴰ z observations).
      member_all
        (λ z.
          of_provider provider z ≡ true
          → obs_key z ≡ obs_key o
          → z.canonical_status ≡ o.canonical_status)
        observations m n.agreeing in
    agree x mx px k ∙ sym (agree y my py (e ∙ k))

action_cases : (a : RecoveryAction) → (a ≡ escalate) ⊎ (a ≢ escalate)
action_cases escalate = inl refl
action_cases repair_merchant_state = inr (λ e. cc)
action_cases refund_payment = inr (λ e. cc)

-- If two observations of the merchant, or two of the provider, are from the newest instant of theirs
-- and have different statuses, the policy escalates.
pub contradiction_escalates :
    (show : Datetime → String) (subject : String) (observations : List Observation)
    (context : Option PolicyContext) (provider : String) (x y : Observation)
    → (provider ≡ "Merchant") ⊎ (provider ≡ "Razorpay")
    → Memᴰ x observations
    → Memᴰ y observations
    → of_provider provider x ≡ true
    → of_provider provider y ≡ true
    → All (λ z. of_provider provider z ≡ true → obs_key z ≤ℤ obs_key x) observations
    → obs_key y ≡ obs_key x
    → x.canonical_status ≢ y.canonical_status
    → (evaluate show subject observations context).action ≡ escalate
contradiction_escalates show subject observations context provider x y side mx my px py newest e
      differ =
    elim (action_cases (evaluate show subject observations context).action) [
      | inl done ↦ done
      | inr n ↦
          let d = decided show subject observations context n in
          let chosen : (o : Observation) × IsNewest provider observations o = elim side [
            | inl s ↦ rw s (d.merchant, d.merchant_newest)
            | inr s ↦ rw s (d.provider, d.provider_newest)
          ] in
          absurd (differ (same_status provider observations x y chosen.1 mx my px py newest e))
    ]
