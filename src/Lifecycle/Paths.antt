-- ===== src/Lifecycle/Paths.antt =====
-- What sequences of accepted transitions can and cannot do
-- (src/domain/investigation/lifecycle.py).
use financial_control_engine.Base.{
  ◌≡◌, refl, ◌≢◌, ◌⊎◌, inl, inr, Bool, true, false, List, [], ◌∷◌, All, Result, ok, err, sym, arith,
}
use mathlib.Core.List.{Memᴰ}
use financial_control_engine.Lifecycle.{
  IncidentState, detected, investigating, actionable, actuating, reobserving, resolved, active,
  retry_pending, completed, actuation_pending, verifying, TransitionError, assert_valid_transition,
}

-- Follow a list of requested states; the first transition that is refused stops it.
unfoldable pub follow : IncidentState → List IncidentState → Result TransitionError IncidentState
follow s [] = ok s
follow s (t ∷ ts) = elim (assert_valid_transition s t) [ ok _ ↦ follow t ts | err e ↦ err e ]

abbrev pub is_final : IncidentState → Bool
is_final IncidentState.resolved = true
is_final IncidentState.completed = true
is_final _ = false

abbrev pub is_legacy : IncidentState → Bool
is_legacy IncidentState.active = true
is_legacy IncidentState.retry_pending = true
is_legacy IncidentState.escalated = true
is_legacy IncidentState.completed = true
is_legacy _ = false

final_step : (s t : IncidentState) → is_final s ≡ true → assert_valid_transition s t ≡ ok tt → s ≡ t
unfolding assert_valid_transition
final_step resolved resolved f h = refl
final_step completed completed f h = refl
final_step resolved _ f h = cc
final_step completed _ f h = cc
final_step _ _ f h = cc

legacy_step :
    (s t : IncidentState)
    → is_legacy s ≡ false
    → assert_valid_transition s t ≡ ok tt
    → is_legacy t ≡ false
unfolding assert_valid_transition
legacy_step detected active f h = cc
legacy_step _ _ f h = ground arith

-- The states in which no mutation has been sent yet, or it was refused.
abbrev pub is_unsent : IncidentState → Bool
is_unsent IncidentState.actuating = false
is_unsent IncidentState.reobserving = false
is_unsent IncidentState.escalated_convergence_failed = false
is_unsent IncidentState.resolved = false
is_unsent IncidentState.completed = false
is_unsent _ = true

send_step :
    (s t : IncidentState)
    → is_unsent s ≡ true
    → assert_valid_transition s t ≡ ok tt
    → (t ≡ actuating) ⊎ (t ≡ resolved) ⊎ (is_unsent t ≡ true)
unfolding assert_valid_transition
send_step detected detected f h = inr (inr refl)
send_step _ actuating f h = inl refl
send_step _ resolved f h = inr (inl refl)
send_step _ _ f h = ground arith

follow_cons :
    (s t u : IncidentState) (ts : List IncidentState)
    → follow s (t ∷ ts) ≡ ok u
    → (assert_valid_transition s t ≡ ok tt) × (follow t ts ≡ ok u)
unfolding follow
follow_cons s t u ts h = ground arith

-- A sequence of accepted transitions that starts at a final state stays there.
pub follow_final :
    (s t : IncidentState) (ts : List IncidentState) → is_final s ≡ true → follow s ts ≡ ok t → t ≡ s
unfolding follow
follow_final s t [] f h = cc
follow_final s t (u ∷ ts) f h =
    let (a, r) = follow_cons s u t ts h in
    let e = final_step s u f a in cc (e, follow_final u t ts (rw e at f) r)

-- From a state in which no mutation has been sent, a sequence of accepted transitions reaches
-- REOBSERVING only by way of ACTUATING.
pub reobserving_needs_actuating :
    (s : IncidentState) (ts : List IncidentState)
    → is_unsent s ≡ true
    → follow s ts ≡ ok reobserving
    → Memᴰ actuating ts
unfolding follow
reobserving_needs_actuating s [] f h = cc
reobserving_needs_actuating s (u ∷ ts) f h =
    let (a, r) = follow_cons s u reobserving ts h in
    elim (send_step s u f a) [
      | inl e ↦ Memᴰ.head (sym e)
      | inr (inl e) ↦ cc (follow_final u reobserving ts (rw e) r)
      | inr (inr g) ↦ Memᴰ.tail (reobserving_needs_actuating u ts g r)
    ]

-- The states in which the evidence of an incident has not been verified.
abbrev pub is_unverified : IncidentState → Bool
is_unverified IncidentState.active = true
is_unverified IncidentState.retry_pending = true
is_unverified IncidentState.detected = true
is_unverified IncidentState.investigating = true
is_unverified IncidentState.verifying = true
is_unverified _ = false

abbrev pub is_escalated : IncidentState → Bool
is_escalated IncidentState.escalated_paused_by_kill_switch = true
is_escalated IncidentState.escalated_budget_exhausted = true
is_escalated IncidentState.escalated_policy_blocked = true
is_escalated IncidentState.escalated_missing_evidence = true
is_escalated IncidentState.escalated_mutation_failed = true
is_escalated IncidentState.escalated_convergence_failed = true
is_escalated IncidentState.escalated_unknown = true
is_escalated IncidentState.escalated = true
is_escalated _ = false

verify_step :
    (s t : IncidentState)
    → is_unverified s ≡ true
    → assert_valid_transition s t ≡ ok tt
    → (t ≡ actionable) ⊎ (is_escalated t ≡ true) ⊎ (is_unverified t ≡ true)
unfolding assert_valid_transition
verify_step detected detected f h = inr (inr refl)
verify_step _ actionable f h = inl refl
verify_step _ _ f h = ground arith

-- With no escalation on the way, a sequence of accepted transitions takes an incident from an
-- unverified state to RESOLVED only by way of ACTIONABLE.
pub resolved_needs_actionable :
    (s : IncidentState) (ts : List IncidentState)
    → is_unverified s ≡ true
    → All (λ t. is_escalated t ≡ false) ts
    → follow s ts ≡ ok resolved
    → Memᴰ actionable ts
unfolding follow
resolved_needs_actionable s [] f n h = cc
resolved_needs_actionable s (u ∷ ts) f n h =
    let (a, r) = follow_cons s u resolved ts h in
    elim (verify_step s u f a) [
      | inl e ↦ Memᴰ.head (sym e)
      | inr (inl e) ↦ cc (n.0)
      | inr (inr g) ↦ Memᴰ.tail (resolved_needs_actionable u ts g n.1 r)
    ]

-- No sequence of accepted transitions enters a legacy state from one that is not.
pub follow_legacy :
    (s t : IncidentState) (ts : List IncidentState)
    → is_legacy s ≡ false
    → follow s ts ≡ ok t
    → is_legacy t ≡ false
unfolding follow
follow_legacy s t [] f h = cc
follow_legacy s t (u ∷ ts) f h =
    let (a, r) = follow_cons s u t ts h in follow_legacy u t ts (legacy_step s u f a) r

-- The way to RESOLVED that an operator or the worker can take from each state.
way_to_resolved : IncidentState → List IncidentState
way_to_resolved detected = investigating ∷ actionable ∷ resolved ∷ []
way_to_resolved active = investigating ∷ actionable ∷ resolved ∷ []
way_to_resolved retry_pending = investigating ∷ actionable ∷ resolved ∷ []
way_to_resolved investigating = actionable ∷ resolved ∷ []
way_to_resolved verifying = actionable ∷ resolved ∷ []
way_to_resolved actuation_pending = actuating ∷ reobserving ∷ resolved ∷ []
way_to_resolved actuating = reobserving ∷ resolved ∷ []
way_to_resolved _ = resolved ∷ []

-- From every state but the legacy COMPLETED some sequence of transitions is accepted and ends
-- in RESOLVED.
pub resolved_reachable :
    (s : IncidentState) → s ≢ completed → (ts : List IncidentState) × (follow s ts ≡ ok resolved)
unfolding follow way_to_resolved assert_valid_transition
resolved_reachable completed n = absurd (n refl)
resolved_reachable detected n = (way_to_resolved detected, refl)
resolved_reachable s n = (way_to_resolved s, refl)
