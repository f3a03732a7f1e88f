-- ===== src/Lifecycle.antt =====
-- The incident state machine of src/domain/investigation/lifecycle.py: `IncidentState`,
-- `IncidentStateMachine.VALID_TRANSITIONS` and `assert_valid_transition`.
pub mod Paths
use financial_control_engine.Base.{
  ℕ, Bool, false, ◌||◌, List, [], ◌∷◌, Result, ok, err, if◌then◌else◌, nat_eq,
}

-- `class IncidentState`
pub data IncidentState : Type 0 where
  detected investigating verifying actionable : IncidentState
  actuation_pending actuating reobserving : IncidentState
  escalated_paused_by_kill_switch escalated_budget_exhausted : IncidentState
  escalated_policy_blocked escalated_missing_evidence : IncidentState
  escalated_mutation_failed escalated_convergence_failed escalated_unknown : IncidentState
  resolved : IncidentState
  active retry_pending escalated completed : IncidentState

-- The position of a state in the class body, which tells the states apart.
abbrev pub ordinal : IncidentState → ℕ
ordinal detected = 0
ordinal investigating = 1
ordinal verifying = 2
ordinal actionable = 3
ordinal actuation_pending = 4
ordinal actuating = 5
ordinal reobserving = 6
ordinal escalated_paused_by_kill_switch = 7
ordinal escalated_budget_exhausted = 8
ordinal escalated_policy_blocked = 9
ordinal escalated_missing_evidence = 10
ordinal escalated_mutation_failed = 11
ordinal escalated_convergence_failed = 12
ordinal escalated_unknown = 13
ordinal resolved = 14
ordinal active = 15
ordinal retry_pending = 16
ordinal escalated = 17
ordinal completed = 18

-- `==` on the enumeration
unfoldable pub state_eq : IncidentState → IncidentState → Bool
state_eq a b = nat_eq (ordinal a) (ordinal b)

-- `class InvalidStateTransitionError`
pub data TransitionError : Type 0 where
  invalid_transition : IncidentState → IncidentState → TransitionError

-- `VALID_TRANSITIONS.get(current, set())`
unfoldable pub valid_transitions : IncidentState → List IncidentState
valid_transitions active = detected ∷ investigating ∷ []
valid_transitions retry_pending = investigating ∷ []
valid_transitions detected = investigating ∷ escalated_unknown ∷ []
valid_transitions investigating =
    verifying ∷ actionable ∷ escalated_missing_evidence ∷ escalated_unknown ∷ []
valid_transitions verifying =
    actionable ∷ investigating ∷ escalated_missing_evidence ∷ escalated_unknown ∷ []
valid_transitions actionable =
    actuation_pending ∷ actuating ∷ resolved ∷ escalated_paused_by_kill_switch
    ∷ escalated_budget_exhausted ∷ escalated_policy_blocked ∷ escalated_unknown ∷ []
valid_transitions actuation_pending = actuating ∷ escalated_mutation_failed ∷ escalated_unknown ∷ []
valid_transitions actuating = reobserving ∷ escalated_mutation_failed ∷ escalated_unknown ∷ []
valid_transitions reobserving = resolved ∷ escalated_convergence_failed ∷ escalated_unknown ∷ []
valid_transitions escalated_paused_by_kill_switch = actionable ∷ resolved ∷ []
valid_transitions escalated_budget_exhausted = actionable ∷ resolved ∷ []
valid_transitions escalated_policy_blocked = actionable ∷ investigating ∷ resolved ∷ []
valid_transitions escalated_missing_evidence = investigating ∷ resolved ∷ []
valid_transitions escalated_mutation_failed = actuation_pending ∷ resolved ∷ []
valid_transitions escalated_convergence_failed = reobserving ∷ resolved ∷ []
valid_transitions escalated_unknown = investigating ∷ actionable ∷ resolved ∷ []
valid_transitions escalated = investigating ∷ actionable ∷ resolved ∷ []
valid_transitions resolved = []
valid_transitions completed = []

-- `target in states`
unfoldable pub is_in : IncidentState → List IncidentState → Bool
unfolding state_eq
is_in s [] = false
is_in s (x ∷ xs) = state_eq x s || is_in s xs

-- `assert_valid_transition`: a transition to the same state is always accepted.
unfoldable pub assert_valid_transition :
    IncidentState → IncidentState → Result TransitionError (Unit {0})
unfolding state_eq valid_transitions is_in
assert_valid_transition current target =
    if state_eq current target
    then ok tt
    else if is_in target (valid_transitions current)
    then ok tt
    else err (invalid_transition current target)
