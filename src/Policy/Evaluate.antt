-- ===== src/Policy/Evaluate.antt =====
-- `V2PolicyEvaluator` of src/engine/policy.py: from the observations to an intent. The text of a
-- `datetime`, which one reason quotes, is a parameter.
use Prim.Native.String.{◌++◌ as join}
use financial_control_engine.Base.{
  String, ◌==◌, lower, is_empty, Bool, not, ◌&&◌, ◌||◌, List, [], ◌∷◌, any, keep, find, Option,
  none, some, Result, ok, err, if◌then◌else◌,
}
use financial_control_engine.Base.Int.{ℤ, leb_ℤ, eq_ℤ}
use financial_control_engine.Base.Sorting.{sort_by}
use financial_control_engine.Core.Models.{
  pending, settled, failed, unknown, status_eq, status_value, Datetime, naive, aware, Expectation,
  Observation, repair_merchant_state, refund_payment, escalate, RecoveryIntent,
}

-- `_obs_key`: a naive value is read as UTC.
abbrev pub instant : Datetime → ℤ
instant (naive t) = t
instant (aware t) = t

abbrev pub obs_key : Observation → ℤ
obs_key o = instant o.observed_at

-- `(obs.provider or "").lower() == provider.lower()`
abbrev pub of_provider : String → Observation → Bool
of_provider provider o = lower o.provider == lower provider

abbrev pub not_older : Observation → Observation → Bool
not_older x y = leb_ℤ (obs_key y) (obs_key x)

-- `provider_obs.sort(key=_obs_key, reverse=True)`: the newest first, and stable.
abbrev pub sort_newest : List Observation → List Observation
sort_newest observations = sort_by not_older observations

-- `class ContradictoryEvidenceError`, with its message
pub data ContradictoryEvidenceError : Type 0 where
  contradictory_evidence : String → ContradictoryEvidenceError

-- At the instant of the newest, but with another status.
abbrev pub contradicts : Observation → Observation → Bool
contradicts newest o =
    eq_ℤ (obs_key o) (obs_key newest) && not (status_eq o.canonical_status newest.canonical_status)

abbrev pub newest_of :
    (Datetime → String)
    → String
    → List Observation
    → Result ContradictoryEvidenceError (Option Observation)
newest_of show provider [] = ok none
newest_of show provider (newest ∷ others) =
    if any (contradicts newest) others
    then err (
        contradictory_evidence (
          join "Simultaneous contradictory claims for "
            (join provider (join " at " (show newest.observed_at)))))
    else ok (some newest)

-- `_select_authoritative_observation`
unfoldable pub select_authoritative_observation :
    (Datetime → String)
    → List Observation
    → String
    → Result ContradictoryEvidenceError (Option Observation)
select_authoritative_observation show observations provider =
    newest_of show provider (sort_newest (keep (of_provider provider) observations))

-- What the policy reads of an `InvestigationContext`.
pub record PolicyContext : Type 0 where
  pub expectation : Option Expectation
  pub observations : List Observation

abbrev escalation : String → String → RecoveryIntent
escalation subject reason = record {
  action = escalate;
  target_id = subject;
  amount = none;
  currency = none;
  reason = some reason;
  expected_provider_state = none;
}

abbrev or_empty : Option String → String
or_empty none = ""
or_empty (some s) = s

abbrev reference_of : Option Observation → String
reference_of none = ""
reference_of (some o) = o.provider_reference

-- The fallback: the first observation of the context whose provider is spelled exactly so.
abbrev or_original : String → List Observation → String → String
or_original reference observations provider =
    if is_empty reference
    then reference_of (find (λ (o : Observation). o.provider == provider) observations)
    else reference

abbrev internal_reference : Option Expectation → String
internal_reference none = ""
internal_reference (some e) = or_empty e.correlation_keys.internal_ref

abbrev provider_reference : Option Expectation → String
provider_reference none = ""
provider_reference (some e) = or_empty e.correlation_keys.provider_ref

-- The expected references; the empty text is "none found".
abbrev pub expected_merchant_ref : Option PolicyContext → String
expected_merchant_ref none = ""
expected_merchant_ref (some c) =
    or_original (internal_reference c.expectation) c.observations "Merchant"

abbrev pub expected_provider_ref : Option PolicyContext → String
expected_provider_ref none = ""
expected_provider_ref (some c) =
    or_original (provider_reference c.expectation) c.observations "Razorpay"

-- The last part: what to do about two observations of the incident's subject.
unfoldable pub intent_for : String → Observation → Observation → RecoveryIntent
intent_for subject m p =
    let is_settled = status_eq p.canonical_status settled in
    if is_settled && status_eq m.canonical_status pending
    then if not (p.currency == m.currency)
      then escalation subject "Currency mismatch"
      else if not (eq_ℤ p.observed_amount m.observed_amount)
      then escalation subject "Amount mismatch"
      else record {
        action = repair_merchant_state;
        target_id = m.provider_reference;
        amount = some p.observed_amount;
        currency = some p.currency;
        reason = some "Provider captured payment but merchant is UNPAID.";
        expected_provider_state = some (status_value p.canonical_status);
      }
    else if is_settled && status_eq m.canonical_status failed
    then record {
      action = refund_payment;
      target_id = p.provider_reference;
      amount = some p.observed_amount;
      currency = some p.currency;
      reason = some "Merchant cancelled order but provider captured payment. Issuing refund.";
      expected_provider_state = none;
    }
    else if status_eq p.canonical_status unknown
    then escalation subject "Cannot act on UNKNOWN provider state."
    else escalation subject (
        join "Unhandled state combination: Merchant=" (
          join (status_value m.canonical_status)
            (join ", Provider=" (status_value p.canonical_status))))

-- The checks that both observations are of the subject of the context.
unfoldable pub bound_intent :
    String → Option PolicyContext → Observation → Observation → RecoveryIntent
unfolding intent_for
bound_intent subject context m p =
    if is_empty m.provider_reference || is_empty p.provider_reference
    then escalation subject "Missing subject identity"
    else if is_empty (expected_merchant_ref context) || is_empty (expected_provider_ref context)
    then escalation subject "Cannot establish subject identity from context"
    else if not (m.provider_reference == expected_merchant_ref context)
    then escalation subject "Cross-subject evidence binding failure"
    else if not (p.provider_reference == expected_provider_ref context)
    then escalation subject "Cross-subject evidence binding failure"
    else intent_for subject m p

abbrev message : ContradictoryEvidenceError → String
message (contradictory_evidence text) = text

abbrev pub with_selected :
    String
    → Option PolicyContext
    → Result ContradictoryEvidenceError (Option Observation)
    → Result ContradictoryEvidenceError (Option Observation)
    → RecoveryIntent
with_selected subject context (err e) _ = escalation subject (message e)
with_selected subject context (ok m) (err e) = escalation subject (message e)
with_selected subject context (ok none) (ok p) = escalation subject "Missing observations"
with_selected subject context (ok (some m)) (ok none) = escalation subject "Missing observations"
with_selected subject context (ok (some m)) (ok (some p)) = bound_intent subject context m p

-- `evaluate`; the reason and the evidence that it is passed are not read.
unfoldable pub evaluate :
    (Datetime → String) → String → List Observation → Option PolicyContext → RecoveryIntent
unfolding select_authoritative_observation bound_intent
evaluate show subject observations context =
    with_selected subject context (select_authoritative_observation show observations "Merchant")
      (select_authoritative_observation show observations "Razorpay")
