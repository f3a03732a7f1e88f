-- ===== src/Policy/Intents.antt =====
-- When the policy of src/engine/policy.py lets automation change money or state.
use financial_control_engine.Base.{
  String, ◌==◌, ◌≡◌, ◌≢◌, refl, sym, ap, ◌∙◌, false, ◌||◌, List, Option, none, some, Result, ok,
  err, inl, inr, is_empty, Bool-cases, arith, eq_iff,
}
use financial_control_engine.Base.Int.{eq_ℤ, eq_ℤ_iff}
use financial_control_engine.Core.Models.{
  pending, settled, failed, status_eq, Datetime, Observation, repair_merchant_state, refund_payment,
  escalate, RecoveryIntent,
}
use financial_control_engine.Policy.Evaluate.{
  PolicyContext, expected_merchant_ref, expected_provider_ref, intent_for, bound_intent, evaluate,
  with_selected, select_authoritative_observation, ContradictoryEvidenceError,
}
use financial_control_engine.Policy.Selection.{IsNewest, status_eq_iff, select-IsNewest}

-- Two newest observations that are of the subject of the context, from which an intent was made.
pub record Decided (observations : List Observation) (subject : String)
    (context : Option PolicyContext) (intent : RecoveryIntent) : Type 0 where
  pub merchant : Observation
  pub provider : Observation
  pub merchant_newest : IsNewest "Merchant" observations merchant
  pub provider_newest : IsNewest "Razorpay" observations provider
  pub merchant_bound : merchant.provider_reference ≡ expected_merchant_ref context
  pub provider_bound : provider.provider_reference ≡ expected_provider_ref context
  pub merchant_named : is_empty merchant.provider_reference ≡ false
  pub provider_named : is_empty provider.provider_reference ≡ false
  pub made : intent ≡ intent_for subject merchant provider

record Bound (subject : String) (context : Option PolicyContext) (m p : Observation) : Type 0 where
  left : m.provider_reference ≡ expected_merchant_ref context
  right : p.provider_reference ≡ expected_provider_ref context
  left_named : is_empty m.provider_reference ≡ false
  right_named : is_empty p.provider_reference ≡ false
  same : bound_intent subject context m p ≡ intent_for subject m p

Bound-of_action :
    (subject : String) (context : Option PolicyContext) (m p : Observation)
    → (bound_intent subject context m p).action ≢ escalate
    → Bound subject context m p
unfolding bound_intent
Bound-of_action subject context m p h =
    elim (Bool-cases (is_empty m.provider_reference || is_empty p.provider_reference)) [
      | inl e ↦ absurd (ground arith)
      | inr e ↦
          elim (Bool-cases (
            is_empty (expected_merchant_ref context) || is_empty (expected_provider_ref context))) [
              | inl g ↦ absurd (ground arith)
              | inr g ↦ elim (Bool-cases (m.provider_reference == expected_merchant_ref context)) [
                | inr i ↦ absurd (ground arith)
                | inl i ↦
                    elim (Bool-cases (p.provider_reference == expected_provider_ref context)) [
                      | inr j ↦ absurd (ground arith)
                      | inl j ↦ record {
                        left = (eq_iff m.provider_reference (expected_merchant_ref context)).0 i;
                        right = (eq_iff p.provider_reference (expected_provider_ref context)).0 j;
                        left_named = ground arith;
                        right_named = ground arith;
                        same = rw (e, g, i, j) refl;
                      }
                    ]
              ]
            ]
    ]

refund_made :
    (subject : String) (m p : Observation)
    → (intent_for subject m p).action ≡ refund_payment
    → (m.canonical_status ≡ failed)
      × (p.canonical_status ≡ settled)
      × ((intent_for subject m p).target_id ≡ p.provider_reference)
      × ((intent_for subject m p).amount ≡ some p.observed_amount)
      × ((intent_for subject m p).currency ≡ some p.currency)
unfolding intent_for
refund_made subject m p h = elim (Bool-cases (status_eq p.canonical_status settled)) [
  | inr e ↦ absurd (ground arith)
  | inl e ↦ elim (Bool-cases (status_eq m.canonical_status failed)) [
    | inr g ↦ absurd (ground arith)
    | inl g ↦
        let a = status_eq_iff p.canonical_status settled e in
        let b = status_eq_iff m.canonical_status failed g in
        (b, a, rw (a, b) refl, rw (a, b) refl, rw (a, b) refl)
  ]
]

repair_made :
    (subject : String) (m p : Observation)
    → (intent_for subject m p).action ≡ repair_merchant_state
    → (m.canonical_status ≡ pending)
      × (p.canonical_status ≡ settled)
      × (m.observed_amount ≡ p.observed_amount)
      × (m.currency ≡ p.currency)
      × ((intent_for subject m p).target_id ≡ m.provider_reference)
      × ((intent_for subject m p).expected_provider_state ≡ some "SETTLED")
unfolding intent_for
repair_made subject m p h = elim (Bool-cases (status_eq p.canonical_status settled)) [
  | inr e ↦ absurd (ground arith)
  | inl e ↦ elim (Bool-cases (status_eq m.canonical_status pending)) [
    | inr g ↦ absurd (ground arith)
    | inl g ↦
        let a = status_eq_iff p.canonical_status settled e in
        let b = status_eq_iff m.canonical_status pending g in
        elim (Bool-cases (p.currency == m.currency)) [
          | inr i ↦ absurd (ground arith)
          | inl i ↦ elim (Bool-cases (eq_ℤ p.observed_amount m.observed_amount)) [
            | inr j ↦ absurd (ground arith)
            | inl j ↦ (
              b,
              a,
              sym ((eq_ℤ_iff p.observed_amount m.observed_amount).0 j),
              sym ((eq_iff p.currency m.currency).0 i),
              rw (a, b, i, j) refl,
              rw (a, b, i, j) refl,
            )
          ]
        ]
  ]
]

selected_of_action :
    (subject : String) (context : Option PolicyContext)
    (a b : Result ContradictoryEvidenceError (Option Observation))
    → (with_selected subject context a b).action ≢ escalate
    → (m : Observation) × ((p : Observation) × (a ≡ ok (some m))
        × (b ≡ ok (some p))
        × (with_selected subject context a b ≡ bound_intent subject context m p))
selected_of_action subject context (err e) b h = absurd (h refl)
selected_of_action subject context (ok m) (err e) h = absurd (h refl)
selected_of_action subject context (ok none) (ok p) h = absurd (h refl)
selected_of_action subject context (ok (some m)) (ok none) h = absurd (h refl)
selected_of_action subject context (ok (some m)) (ok (some p)) h = (m, (p, refl, refl, refl))

module _ (show : Datetime → String) (subject : String) (observations : List Observation)
    (context : Option PolicyContext) where
  pub decided :
      (evaluate show subject observations context).action ≢ escalate
      → Decided observations subject context (evaluate show subject observations context)
  unfolding evaluate
  decided h =
      let (m, (p, a, b, same)) =
        selected_of_action subject context
          (select_authoritative_observation show observations "Merchant")
          (select_authoritative_observation show observations "Razorpay") h in
      let bound =
        Bound-of_action subject context m p
          (λ e. h (ap (λ (i : RecoveryIntent). i.action) same ∙ e)) in
      record {
        merchant = m;
        provider = p;
        merchant_newest = select-IsNewest show observations "Merchant" a;
        provider_newest = select-IsNewest show observations "Razorpay" b;
        merchant_bound = bound.left;
        provider_bound = bound.right;
        merchant_named = bound.left_named;
        provider_named = bound.right_named;
        made = same ∙ bound.same;
      }

  -- A refund is ordered only if the newest observations of the merchant and of the provider are of the
  -- subject of the context and say FAILED and SETTLED, and it is of the provider's payment with its
  -- amount and currency.
  pub refund-Decided :
      (evaluate show subject observations context).action ≡ refund_payment
      → (d : Decided observations subject context (evaluate show subject observations context))
        × (d.merchant.canonical_status ≡ failed)
        × (d.provider.canonical_status ≡ settled)
        × ((evaluate show subject observations context).target_id ≡ d.provider.provider_reference)
        × ((evaluate show subject observations context).amount ≡ some d.provider.observed_amount)
        × ((evaluate show subject observations context).currency ≡ some d.provider.currency)
  refund-Decided h =
      let d = decided (λ e. cc (e, h)) in
      let (m, p, t, a, c) = refund_made subject d.merchant d.provider (rw (d.made) at h) in
      (d, m, p, rw (d.made) t, rw (d.made) a, rw (d.made) c)

  -- A repair of the merchant's state is ordered only if the newest observations of the merchant and of
  -- the provider are of the subject of the context, say PENDING and SETTLED and agree on amount
  -- and currency, and it is of the merchant's order and requires the provider to be SETTLED still.
  pub repair-Decided :
      (evaluate show subject observations context).action ≡ repair_merchant_state
      → (d : Decided observations subject context (evaluate show subject observations context))
        × (d.merchant.canonical_status ≡ pending)
        × (d.provider.canonical_status ≡ settled)
        × (d.merchant.observed_amount ≡ d.provider.observed_amount)
        × (d.merchant.currency ≡ d.provider.currency)
        × ((evaluate show subject observations context).target_id ≡ d.merchant.provider_reference)
        × ((evaluate show subject observations context).expected_provider_state ≡ some "SETTLED")
  repair-Decided h =
      let d = decided (λ e. cc (e, h)) in
      let (m, p, a, c, t, x) = repair_made subject d.merchant d.provider (rw (d.made) at h) in
      (d, m, p, a, c, rw (d.made) t, rw (d.made) x)
