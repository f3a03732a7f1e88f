-- ===== src/Matching/Matches.antt =====
-- What the outcome of `evaluate_expectation_centric` says (src/engine/reconciliation_controls.py).
use mathlib.Core.List.{Memᴰ}
use financial_control_engine.Base.{
  String, ◌==◌, ◌≡◌, ◌≢◌, ◌↔◌, refl, sym, ap, ◌∙◌, ◌⊎◌, inl, inr, Bool, true, false, List, [], ◌∷◌,
  map, Option, none, some, All, Bool-cases, eq_iff, some_injective,
}
use financial_control_engine.Base.Int.{ℤ, ◌+ℤ◌, ◌≤ℤ◌, ltb_ℤ, eq_ℤ, eq_ℤ_iff}
use financial_control_engine.Core.Models.{
  match, discrepancy, DiscrepancyReason, absent_execution, duplicate_execution, sla_breach,
  Expectation, Observation, ReconciliationResult,
}
use financial_control_engine.Matching.Grouping.{exec_id, seen_at, get_latest_observation}
use financial_control_engine.Matching.Controls.{
  one_day, provider_latest, first_mismatch, compare_amounts, compare_states,
  evaluate_expectation_centric,
}
use financial_control_engine.Matching.Executions.{has_several, group, group_same, group_several}
use financial_control_engine.Matching.Latest.{
  get_latest_observation-some, get_latest_observation_lem,
}
use financial_control_engine.Matching.Providers.{AcceptedSince, first_mismatch-AcceptedSince}

abbrev ids_of : List Observation → List String
ids_of l = map (λ (o : Observation). o.observation_id) l

module _ (str : ℤ → String) (e : Expectation) (now : ℤ) where
  several_result :
      (l : List Observation)
      → has_several l ≡ true
      → (r : ReconciliationResult) × (evaluate_expectation_centric str e l now ≡ some r)
        × (r.discrepancy_reason ≡ some duplicate_execution)
        × (r.outcome ≡ discrepancy)
  unfolding evaluate_expectation_centric
  several_result l h = let (g, (k, (gs, is))) = group_several l h in rw is (_, refl, refl, refl)

  empty_result :
      (r : ReconciliationResult) × (evaluate_expectation_centric str e [] now ≡ some r)
      × (r.outcome ≡ discrepancy)
  unfolding evaluate_expectation_centric
  empty_result = elim (Bool-cases (ltb_ℤ (e.created_at +ℤ one_day) now)) [
    | inl late ↦ rw late (_, refl, refl)
    | inr late ↦ rw late (_, refl, refl)
  ]

  single_result :
      (o : Observation) (os : List Observation)
      → has_several (o ∷ os) ≡ false
      → (latest : Observation) × (get_latest_observation (group (exec_id o) (o ∷ os)) ≡ some latest)
        × (evaluate_expectation_centric str e (o ∷ os) now
            ≡ some (
                compare_states str e
                  (ids_of (o ∷ os))
                  latest
                  (first_mismatch e.expected_canonical_status (provider_latest [] (o ∷ os)))))
  unfolding evaluate_expectation_centric
  single_result o os h =
      let (latest, is) = get_latest_observation-some (exec_id o) o os in
      (latest, is, rw (group_same o os h, is) refl)

abbrev counts_executions : Option DiscrepancyReason → Bool
counts_executions (some duplicate_execution) = true
counts_executions (some absent_execution) = true
counts_executions (some sla_breach) = true
counts_executions _ = false

compare_states_reason :
    (str : ℤ → String) (e : Expectation) (ids : List String) (latest : Observation)
    (bad : Option (String × Observation))
    → counts_executions (compare_states str e ids latest bad).discrepancy_reason ≡ false
compare_states_reason str e ids latest (some (p, o)) = refl
compare_states_reason str e ids latest none = elim (Bool-cases (latest.currency == e.currency)) [
  | inr c ↦ rw c refl
  | inl c ↦ elim (Bool-cases (eq_ℤ latest.observed_amount e.expected_amount)) [
    | inl a ↦ rw (c, a) refl
    | inr a ↦ rw (c, a) refl
  ]
]

abbrev pub IsMissing : Option DiscrepancyReason → Type 0
IsMissing reason = (reason ≡ some absent_execution) ⊎ (reason ≡ some sla_breach)

uncounted :
    (reason : Option DiscrepancyReason)
    → counts_executions reason ≡ false
    → (reason ≢ some duplicate_execution) × (IsMissing reason → ⊥)
uncounted reason h = (
  λ e. cc (ap counts_executions e, h),
  λ m. elim m [ inl e ↦ cc (ap counts_executions e, h) | inr e ↦ cc (ap counts_executions e, h) ],
)

-- The control never raises; it finds a DUPLICATE_EXECUTION exactly if two observations have different
-- execution identities, and ABSENT_EXECUTION or SLA_BREACH exactly if there is no observation.
pub executions_counted :
    (str : ℤ → String) (e : Expectation) (l : List Observation) (now : ℤ)
    → (r : ReconciliationResult) × (evaluate_expectation_centric str e l now ≡ some r)
      × ((r.discrepancy_reason ≡ some duplicate_execution) ↔ (has_several l ≡ true))
      × (IsMissing r.discrepancy_reason ↔ (l ≡ []))
unfolding evaluate_expectation_centric
executions_counted str e [] now = elim (Bool-cases (ltb_ℤ (e.created_at +ℤ one_day) now)) [
  | inl late ↦ rw late (_, refl, ((λ d. cc), (λ d. cc)), ((λ d. refl), (λ d. inr refl)))
  | inr late ↦ rw late (_, refl, ((λ d. cc), (λ d. cc)), ((λ d. refl), (λ d. inl refl)))
]
executions_counted str e (o ∷ os) now = elim (Bool-cases (has_several (o ∷ os))) [
  | inl h ↦
      let (r, is, dup, _) = several_result str e now (o ∷ os) h in
      (
        r,
        is,
        ((λ d. h), (λ d. dup)),
        ((λ m. elim m [ inl x ↦ cc (dup, x) | inr x ↦ cc (dup, x) ]), (λ d. cc)),
      )
  | inr h ↦
      let (latest, _, is) = single_result str e now o os h in
      let bad = first_mismatch e.expected_canonical_status (provider_latest [] (o ∷ os)) in
      let (d, m) =
        uncounted (compare_states str e (ids_of (o ∷ os)) latest bad).discrepancy_reason
          (compare_states_reason str e (ids_of (o ∷ os)) latest bad) in
      (_, is, ((λ x. absurd (d x)), (λ x. cc (h, x))), ((λ x. absurd (m x)), (λ x. cc)))
]

-- What a match rests on.
pub record Matched (e : Expectation) (l : List Observation) : Type 0 where
  pub one_execution : has_several l ≡ false
  pub latest : Observation
  pub listed : Memᴰ latest l
  pub none_later : All (λ x. seen_at x ≤ℤ seen_at latest) l
  pub currency_equal : latest.currency ≡ e.currency
  pub amount_equal : latest.observed_amount ≡ e.expected_amount
  pub accepted : All (AcceptedSince e.expected_canonical_status l) l

compare_amounts_match :
    (str : ℤ → String) (e : Expectation) (ids : List String) (o : Observation)
    → (compare_amounts str e ids o).outcome ≡ match
    → (o.currency ≡ e.currency) × (o.observed_amount ≡ e.expected_amount)
compare_amounts_match str e ids o h = elim (Bool-cases (o.currency == e.currency)) [
  | inr c ↦ absurd (cc (rw c at h))
  | inl c ↦ elim (Bool-cases (eq_ℤ o.observed_amount e.expected_amount)) [
    | inr a ↦ absurd (cc (rw (c, a) at h))
    | inl a ↦
        ((eq_iff o.currency e.currency).0 c, (eq_ℤ_iff o.observed_amount e.expected_amount).0 a)
  ]
]

compare_states_match :
    (str : ℤ → String) (e : Expectation) (ids : List String) (o : Observation)
    (bad : Option (String × Observation))
    → (compare_states str e ids o bad).outcome ≡ match
    → (bad ≡ none) × ((compare_amounts str e ids o).outcome ≡ match)
compare_states_match str e ids o none h = (refl, h)
compare_states_match str e ids o (some (p, x)) h = cc

-- The outcome is a match only if all observations are of one execution, the latest of them has the
-- expected currency and amount, and for each of them its provider has an observation that is not
-- older and has the expected status, or REFUNDED where FAILED is expected.
pub expectation-Matched :
    (str : ℤ → String) (e : Expectation) (l : List Observation) (now : ℤ) {r : ReconciliationResult}
    → evaluate_expectation_centric str e l now ≡ some r
    → r.outcome ≡ match
    → Matched e l
expectation-Matched str e [] now {r} h m =
    let (x, is, out) = empty_result str e now in
    let same : r ≡ x = some_injective (sym is ∙ h) in absurd (cc (rw same at m, out))
expectation-Matched str e (o ∷ os) now {r} h m = elim (Bool-cases (has_several (o ∷ os))) [
  | inl s ↦
      let (x, is, _, out) = several_result str e now (o ∷ os) s in
      let same : r ≡ x = some_injective (sym is ∙ h) in absurd (cc (rw same at m, out))
  | inr s ↦
      let (latest, got, is) = single_result str e now o os s in
      let bad = first_mismatch e.expected_canonical_status (provider_latest [] (o ∷ os)) in
      let same : r ≡ compare_states str e (ids_of (o ∷ os)) latest bad =
        some_injective (sym is ∙ h) in
      let (calm, amounts) =
        compare_states_match str e (ids_of (o ∷ os)) latest bad (rw same at m) in
      let (c, a) = compare_amounts_match str e (ids_of (o ∷ os)) latest amounts in
      let (there, low) = get_latest_observation_lem (exec_id o) (o ∷ os) got in
      record {
        one_execution = s;
        latest = latest;
        listed = there;
        none_later = low;
        currency_equal = c;
        amount_equal = a;
        accepted = first_mismatch-AcceptedSince e.expected_canonical_status (o ∷ os) calm;
      }
]
