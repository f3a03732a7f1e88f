-- ===== src/Recovery/Registry.antt =====
-- `ActionRegistry` of src/recovery/registry.py. The dictionary by action id is the list of its values in
-- the order of their insertion; the lock makes the methods follow one another.
use financial_control_engine.Base.{
  String, ◌==◌, ◌≡◌, refl, Bool, false, List, [], ◌∷◌, any, find, Option, some, Result, ok, err,
  if◌then◌else◌, inl, inr, Bool-cases, ok_injective, eq_refl,
}
use financial_control_engine.Recovery.Outbox.{Action}

-- `class ActionConcurrencyError`
pub data ActionConcurrencyError : Type 0 where
  duplicate_key : ActionConcurrencyError

abbrev pub has_action_key : String → Action → Bool
has_action_key key a = a.idempotency_key == key

-- `self._actions[action.action_id] = action`
abbrev pub put_action : Action → List Action → List Action
put_action a [] = a ∷ []
put_action a (x ∷ xs) = if x.action_id == a.action_id then a ∷ xs else x ∷ put_action a xs

-- `record_action_attempt`
unfoldable pub record_action_attempt :
    Action → List Action → Result ActionConcurrencyError (List Action)
record_action_attempt a rows =
    if any (has_action_key a.idempotency_key) rows
    then err duplicate_key
    else ok (put_action a rows)

-- `get_action_by_idempotency_key`
unfoldable pub get_action_by_idempotency_key : String → List Action → Option Action
get_action_by_idempotency_key key rows = find (has_action_key key) rows

find-put_action :
    (a : Action) (rows : List Action)
    → any (has_action_key a.idempotency_key) rows ≡ false
    → find (has_action_key a.idempotency_key) (put_action a rows) ≡ some a
find-put_action a [] h = rw (eq_refl a.idempotency_key) refl
find-put_action a (x ∷ xs) h = elim (Bool-cases (x.idempotency_key == a.idempotency_key)) [
  | inl k ↦ absurd (cc (rw k at h))
  | inr k ↦ elim (Bool-cases (x.action_id == a.action_id)) [
    | inl m ↦ rw (m, eq_refl a.idempotency_key) refl
    | inr m ↦ rw (m, k) (find-put_action a xs (rw k at h))
  ]
]

-- An action whose attempt was recorded is the one that is found by its key.
pub recorded_found :
    (a : Action) (rows after : List Action)
    → record_action_attempt a rows ≡ ok after
    → get_action_by_idempotency_key a.idempotency_key after ≡ some a
unfolding record_action_attempt get_action_by_idempotency_key
recorded_found a rows after h = elim (Bool-cases (any (has_action_key a.idempotency_key) rows)) [
  | inl k ↦ absurd (cc (rw k at h))
  | inr k ↦ rw (ok_injective (rw k at h)) (find-put_action a rows k)
]
