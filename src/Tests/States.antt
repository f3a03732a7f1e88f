-- ===== src/Tests/States.antt =====
-- The incident state machine at concrete paths.
use financial_control_engine.Base.{◌≡◌, refl, List, [], ◌∷◌, ok, err}
use financial_control_engine.Lifecycle.{
  IncidentState, detected, investigating, verifying, actionable, actuation_pending, actuating,
  reobserving, resolved, invalid_transition, assert_valid_transition,
}
use financial_control_engine.Lifecycle.Paths.{follow}

abbrev repair : List IncidentState
repair = investigating ∷ verifying ∷ actionable ∷ actuation_pending ∷ actuating ∷ reobserving ∷ []

repair_follows : follow detected repair ≡ ok reobserving
unfolding follow assert_valid_transition
repair_follows = refl

repair_resolves : follow detected (investigating ∷ actionable ∷ resolved ∷ []) ≡ ok resolved
unfolding follow assert_valid_transition
repair_resolves = refl

early_resolution :
    assert_valid_transition investigating resolved ≡ err (invalid_transition investigating resolved)
unfolding assert_valid_transition
early_resolution = refl

stays_resolved : follow resolved (resolved ∷ []) ≡ ok resolved
unfolding follow assert_valid_transition
stays_resolved = refl
