-- ===== src/Matching/Grouping.antt =====
-- The grouping of observations by execution: src/engine/execution_identity.py.
use financial_control_engine.Base.{
  String, ◌==◌, is_empty, Bool, List, [], ◌∷◌, ◌++◌, Option, none, some, if◌then◌else◌,
}
use financial_control_engine.Base.Int.{ℤ, leb_ℤ}
use financial_control_engine.Base.Sorting.{sort_by}
use financial_control_engine.Core.Models.{Datetime, naive, aware, Observation}

-- `class ExecutionGroup`
pub record ExecutionGroup : Type 0 where
  pub execution_identity : String
  pub observations : List Observation

-- `_to_utc`: a naive value is read as UTC.
abbrev pub to_utc : Datetime → ℤ
to_utc (naive t) = t
to_utc (aware t) = t

abbrev pub seen_at : Observation → ℤ
seen_at o = to_utc o.observed_at

-- `sorted(self.observations, key=_to_utc)`, which is stable
abbrev pub not_later : Observation → Observation → Bool
not_later x y = leb_ℤ (seen_at x) (seen_at y)

abbrev pub sort_by_time : List Observation → List Observation
sort_by_time observations = sort_by not_later observations

-- `[-1]`; on an empty list it raises.
abbrev pub last : List Observation → Option Observation
last [] = none
last (x ∷ []) = some x
last (x ∷ y ∷ ys) = last (y ∷ ys)

-- `get_latest_observation`
unfoldable pub get_latest_observation : ExecutionGroup → Option Observation
get_latest_observation g = last (sort_by_time g.observations)

-- The first of the references that is given and not empty.
abbrev or_else : Option String → String → String
or_else none other = other
or_else (some s) other = if is_empty s then other else s

-- The execution identity of an observation.
unfoldable pub exec_id : Observation → String
exec_id o =
    or_else o.correlation_keys.internal_ref (
      or_else o.correlation_keys.provider_ref
        (or_else (some o.provider_reference) o.observation_id))

-- `groups[exec_id].observations.append(obs)`, after the group was made if it is new
unfoldable pub add_observation : Observation → List ExecutionGroup → List ExecutionGroup
unfolding exec_id
add_observation o [] = record { execution_identity = exec_id o; observations = o ∷ [] } ∷ []
add_observation o (g ∷ gs) =
    if g.execution_identity == exec_id o
    then record g { observations = g.observations ++ o ∷ [] } ∷ gs
    else g ∷ add_observation o gs

unfoldable pub add_all : List ExecutionGroup → List Observation → List ExecutionGroup
unfolding add_observation
add_all gs [] = gs
add_all gs (o ∷ os) = add_all (add_observation o gs) os

-- `group_by_execution`; a `dict` keeps the order of insertion.
unfoldable pub group_by_execution : List Observation → List ExecutionGroup
unfolding add_all
group_by_execution observations = add_all [] observations
