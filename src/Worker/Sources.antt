-- ===== src/Worker/Sources.antt =====
-- Where the observations come from that src/engine/worker.py decides on.
use mathlib.Core.List.{Memᴰ}
use financial_control_engine.Base.{
  ℕ, String, ◌==◌, ◌&&◌, is_empty, lower, ◌≡◌, refl, sym, Bool, List, [], ◌∷◌, find, Option, none,
  some, ok, All, All-append, inl, inr, ◌⊎◌, Bool-cases, Option-cases, some_injective,
}
use financial_control_engine.Base.Sorting.{All-map, All-Memᴰ, All-keep, All-mapped}
use financial_control_engine.Core.Models.{CorrelationKeys, Observation, status_eq}
use financial_control_engine.Substrate.Rows.{ObservationRow, to_observation}
use financial_control_engine.Substrate.Observations.{
  find_observations, get_observation, of_keys, of_domain,
}
use financial_control_engine.Investigation.Context.{InvestigationContext, observations_of}
use financial_control_engine.Investigation.Hypotheses.{
  VerificationIntent, VerificationResult, CausalHypothesis, InvestigationDisposition,
  VerificationStatus, investigation_exhausted, verification_proposed, succeeded, rejected, failed,
}
use financial_control_engine.Worker.Runs.{World, next, pure, attempt}
use financial_control_engine.Worker.Services.{Services}
use financial_control_engine.Worker.Observer.{
  order_observed, payment_observed, refund_observed, observe_merchant_order,
  observe_provider_payment, observe_provider_refund, observe_again, if_changed, reobserve,
}
use financial_control_engine.Worker.Verifier.{
  routed_provider, verify_intent, verify_intents, verify_proposed, verify,
}
use financial_control_engine.Worker.Process.{Learned, Verified, collect, learned}
use financial_control_engine.Worker.Logic.{
  Meets, meets_pure, meets_ask, meets_if, meets_bind, meets_attempt, meets_given,
}

-- An observation is read of the table or of an answer of an external system.
pub data Source (s : Services) (rows : List ObservationRow) (o : Observation) : Type 0 where
  stored : (r : ObservationRow) → Memᴰ r rows → to_observation r ≡ o → Source s rows o
  verified :
      (n : ℕ) (i : VerificationIntent) (c : InvestigationContext) (r : VerificationResult)
      → s.query_provider n i c ≡ ok r
      → Memᴰ o r.new_observations
      → Source s rows o
  ordered :
      (n : ℕ) (id : String)
      → order_observed s n id (s.read_merchant_order n id) ≡ ok (some o)
      → Source s rows o
  paid :
      (n : ℕ) (id : String)
      → payment_observed s n (s.get_payment n id) ≡ ok (some o)
      → Source s rows o
  refunded :
      (n : ℕ) (id : String)
      → refund_observed s n (s.get_refund n id) ≡ ok (some o)
      → Source s rows o

find_member : {A : Type 0} (p : A → Bool) (l : List A) {x : A} → find p l ≡ some x → Memᴰ x l
find_member p [] h = cc
find_member p (y ∷ ys) {x} h = elim (Bool-cases (p y)) [
  | inl e ↦ Memᴰ.head (some_injective (rw e at h))
  | inr e ↦ Memᴰ.tail (find_member p ys (rw e at h))
]

status_cases : (x : VerificationStatus) → (x ≡ succeeded) ⊎ ((x ≡ rejected) ⊎ (x ≡ failed))
status_cases succeeded = inl refl
status_cases rejected = inr (inl refl)
status_cases failed = inr (inr refl)

module _ (s : Services) (rows : List ObservationRow) where
  abbrev pub Sourced : List Observation → Type 0
  Sourced = All (Source s rows)

  pub find_observations-Sourced : (keys : CorrelationKeys) → Sourced (find_observations keys rows)
  unfolding find_observations
  find_observations-Sourced keys = All-mapped (Source s rows) to_observation _ (
      All-keep (λ (r : ObservationRow). of_keys keys r && of_domain keys r.correlation_keys)
        (λ r. Source s rows (to_observation r)) rows
        (All-map (λ r m. Source.stored r m refl) rows (All-Memᴰ rows)))

  get-Source : (id : String) {o : Observation} → get_observation id rows ≡ some o → Source s rows o
  unfolding get_observation
  get-Source id {o} h =
      elim (Option-cases (find (λ (r : ObservationRow). r.observation_id == id) rows)) [
        | inl e ↦ absurd (cc (rw e at h))
        | inr (r, e) ↦
            Source.stored r (find_member (λ (x : ObservationRow). x.observation_id == id) rows e)
              (sym (some_injective (rw e at h)))
      ]

  pub observations_of-Sourced : (ids : List String) → Sourced (observations_of ids rows)
  unfolding observations_of
  observations_of-Sourced [] = tt
  observations_of-Sourced (id ∷ ids) = elim (Option-cases (get_observation id rows)) [
    | inl e ↦ rw (observations_of, e) (observations_of-Sourced ids)
    | inr (o, e) ↦ rw (observations_of, e) (get-Source id e, observations_of-Sourced ids)
  ]

  -- An optional observation.
  abbrev pub IfSourced : Option Observation → Type 0
  IfSourced none = Unit
  IfSourced (some o) = Source s rows o

  if_sourced :
      (x : Option Observation) → ((o : Observation) → x ≡ some o → Source s rows o) → IfSourced x
  if_sourced none h = tt
  if_sourced (some o) h = h o refl

  changed-Sourced :
      (o : Observation) (x : Option Observation) → IfSourced x → Sourced (if_changed o x)
  changed-Sourced o none h = tt
  changed-Sourced o (some x) h =
      elim (Bool-cases (status_eq x.canonical_status o.canonical_status)) [
        | inl e ↦ rw e tt
        | inr e ↦ rw e (h, tt)
      ]

  module _ {P J : World → Type 0} (tick : (w : World) → P w → P (next w))
      (weaken : (w : World) → P w → J w) where
    pub order-Sourced :
        (id : String) → Meets P (observe_merchant_order s id) (λ x w. P w × IfSourced x) J
    unfolding observe_merchant_order
    order-Sourced id =
        meets_ask _
          (λ w a p e. (tick w p, if_sourced a (λ o h. Source.ordered w.tick id (rw h at e))))
          (λ w p. weaken (next w) (tick w p))

    pub payment-Sourced :
        (id : String) → Meets P (observe_provider_payment s id) (λ x w. P w × IfSourced x) J
    unfolding observe_provider_payment
    payment-Sourced id =
        meets_if s.has_provider
          (λ _.
            meets_ask _
              (λ w a p e. (tick w p, if_sourced a (λ o h. Source.paid w.tick id (rw h at e))))
              (λ w p. weaken (next w) (tick w p)))
          (λ _. meets_pure none (λ w p. (p, tt)))

    refund-Sourced :
        (id : String) → Meets P (observe_provider_refund s id) (λ x w. P w × IfSourced x) J
    unfolding observe_provider_refund
    refund-Sourced id =
        meets_if s.has_provider
          (λ _.
            meets_ask _
              (λ w a p e. (tick w p, if_sourced a (λ o h. Source.refunded w.tick id (rw h at e))))
              (λ w p. weaken (next w) (tick w p)))
          (λ _. meets_pure none (λ w p. (p, tt)))

    again-Sourced : (o : Observation) → Meets P (observe_again s o) (λ x w. P w × IfSourced x) J
    unfolding observe_again
    again-Sourced o =
        meets_if (lower o.provider == "razorpay")
          (λ _.
            meets_if _ (λ _. refund-Sourced o.provider_reference)
              (λ _. payment-Sourced o.provider_reference))
          (λ _.
            meets_if (lower o.provider == "merchant") (λ _. order-Sourced o.provider_reference)
              (λ _. meets_pure none (λ w p. (p, tt))))

    intent-Sourced :
        (c : InvestigationContext) (i : VerificationIntent)
        → Meets P (verify_intent s c i) (λ r w. P w × Sourced r.new_observations) J
    unfolding verify_intent
    intent-Sourced c i =
        meets_if (is_empty (routed_provider c)) (λ _. meets_pure _ (λ w p. (p, tt)))
          (λ _.
            meets_if (lower (routed_provider c) == "razorpay")
              (λ _.
                meets_ask _
                  (λ w r p e. (
                    tick w p,
                    All-map (λ o m. Source.verified w.tick i c r e m) r.new_observations
                        (All-Memᴰ r.new_observations),
                  ))
                  (λ w p. weaken (next w) (tick w p)))
              (λ _. meets_pure _ (λ w p. (p, tt))))

    abbrev pub AllSourced : List VerificationResult → Type 0
    AllSourced = All (λ (r : VerificationResult). Sourced r.new_observations)

    intents-Sourced :
        (c : InvestigationContext) (is : List VerificationIntent)
        → Meets P (verify_intents s c is) (λ rs w. P w × AllSourced rs) J
    unfolding verify_intents
    intents-Sourced c [] = meets_pure [] (λ w p. (p, tt))
    intents-Sourced c (i ∷ is) = meets_bind (intent-Sourced c i) (λ r.
        meets_given
          (λ h. meets_bind (intents-Sourced c is) (λ rs. meets_pure _ (λ w p. (p.0, (h, p.1))))))

    proposed-Sourced :
        (d : InvestigationDisposition) (c : InvestigationContext) (is : List VerificationIntent)
        → Meets P (verify_proposed d s c is) (λ rs w. P w × AllSourced rs) J
    proposed-Sourced investigation_exhausted c is = meets_pure [] (λ w p. (p, tt))
    proposed-Sourced verification_proposed c is = intents-Sourced c is

    pub verify-Sourced :
        (h : CausalHypothesis) (c : InvestigationContext)
        → Meets P (verify s h c) (λ rs w. P w × AllSourced rs) J
    unfolding verify
    verify-Sourced h c = proposed-Sourced h.disposition c h.verification_intents

  module _ {P J : World → Type 0} (tick : (w : World) → P w → P (next w)) where
    caught-Sourced :
        (o : Observation)
        → Meets P (attempt (observe_again s o) (λ _. pure none)) (λ x w. P w × IfSourced x) J
    caught-Sourced o =
        meets_attempt (again-Sourced (λ w p. tick w p) (λ w p. p) o)
          (λ e. meets_pure none (λ w p. (p, tt)))

    pub reobserve-Sourced :
        (os : List Observation) → Meets P (reobserve s os) (λ xs w. P w × Sourced xs) J
    unfolding reobserve
    reobserve-Sourced [] = meets_pure [] (λ w p. (p, tt))
    reobserve-Sourced (o ∷ os) = meets_bind (caught-Sourced o) (λ x. meets_given (λ h.
        meets_bind (reobserve-Sourced os) (λ xs. meets_pure _ (λ w p.
          (p.0, All-append (Source s rows) (if_changed o x) xs (changed-Sourced o x h) p.1)))))

  -- What was learned, if the results did not end the run.
  abbrev pub IfLearned : Verified → Type 0
  IfLearned (learned l) = Sourced l.observations
  IfLearned _ = Unit

  pub collect-IfLearned :
      (rs : List VerificationResult) (l : Learned)
      → All (λ (r : VerificationResult). Sourced r.new_observations) rs
      → Sourced l.observations
      → IfLearned (collect rs l)
  unfolding collect
  collect-IfLearned [] l h k = k
  collect-IfLearned (r ∷ rs) l h k = elim (status_cases r.status) [
    | inl e ↦
        rw (collect, e)
          (collect-IfLearned rs _ h.1
            (All-append (Source s rows) l.observations r.new_observations k h.0))
    | inr (inl e) ↦ rw (collect, e) tt
    | inr (inr e) ↦ rw (collect, e) tt
  ]
