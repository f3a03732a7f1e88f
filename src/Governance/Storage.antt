-- ===== src/Governance/Storage.antt =====
-- `PostgresGovernanceRepository` of src/storage/postgres_governance.py. A row holds what `to_domain` and
-- `from_domain` copy, so that the rows are the domain records; a method is a function of its table.
use financial_control_engine.Base.{
  ℕ, ◌+◌, String, ◌==◌, Bool, true, false, ◌&&◌, List, [], ◌∷◌, ◌++◌, any, map, keep, Option, none,
  some, if◌then◌else◌, leb, nat_eq, write_first,
}
use financial_control_engine.Base.Sorting.{sort_by}
use financial_control_engine.Governance.Models.{enabled, ControlPlaneState, ActionBudget}
use financial_control_engine.Governance.Gate.{find_plane, find_budget}

-- `class OperatorActionType`
pub data OperatorActionType : Type 0 where
  escalate retry_actuation override_policy resolve : OperatorActionType

-- `class OperatorAction`
pub record OperatorAction : Type 0 where
  pub incident_id : String
  pub operator_id : String
  pub action_type : OperatorActionType
  pub reason : String
  pub resulting_intent_id : Option String
  pub action_id : String
  pub timestamp : ℕ

abbrev pub or_default : String → ℕ → Option ControlPlaneState → ControlPlaneState
or_default id now none = record {
  id = id;
  automation_state = enabled;
  reason = none;
  updated_by = "SYSTEM";
  updated_at = now;
  version = 1;
}
or_default id now (some p) = p

-- `get_control_plane_state`
unfoldable pub get_control_plane_state : String → ℕ → List ControlPlaneState → ControlPlaneState
get_control_plane_state id now rows = or_default id now (find_plane id rows)

-- The filter of the update: the id and the version that was read.
abbrev pub plane_at : String → ℕ → ControlPlaneState → Bool
plane_at id version p = p.id == id && nat_eq p.version version

abbrev pub updated_plane : ControlPlaneState → ℕ → ControlPlaneState → ControlPlaneState
updated_plane new now p =
    if plane_at new.id new.version p
    then record p {
      automation_state = new.automation_state;
      reason = new.reason;
      updated_by = new.updated_by;
      updated_at = now;
      version = new.version + 1;
    }
    else p

-- A row that is missing is inserted at version 1, as it was passed.
abbrev pub update_found :
    ControlPlaneState
    → ℕ
    → Option ControlPlaneState
    → List ControlPlaneState
    → Bool × List ControlPlaneState
update_found new now none rows =
    if nat_eq new.version 1 then (true, rows ++ new ∷ []) else (false, rows)
update_found new now (some p) rows =
    if nat_eq p.version new.version
    then (any (plane_at new.id new.version) rows, map (updated_plane new now) rows)
    else (false, rows)

-- `update_control_plane_state_occ`
unfoldable pub update_control_plane_state_occ :
    ControlPlaneState → ℕ → List ControlPlaneState → Bool × List ControlPlaneState
update_control_plane_state_occ new now rows = update_found new now (find_plane new.id rows) rows

-- `get_budget`
unfoldable pub get_budget : String → List ActionBudget → Option ActionBudget
get_budget id rows = find_budget id rows

abbrev pub has_budget_id : String → ActionBudget → Bool
has_budget_id id b = b.budget_id == id

abbrev pub overwritten : ActionBudget → ActionBudget → ActionBudget
overwritten b r = record r {
  count_limit = b.count_limit;
  monetary_limit = b.monetary_limit;
  count_used = b.count_used;
  monetary_used = b.monetary_used;
  updated_at = b.updated_at;
  version = b.version;
}

-- `save_budget`
unfoldable pub save_budget : ActionBudget → List ActionBudget → List ActionBudget
save_budget b rows =
    if any (has_budget_id b.budget_id) rows
    then write_first (has_budget_id b.budget_id) (overwritten b) rows
    else rows ++ b ∷ []

abbrev pub budget_at : String → ℕ → ActionBudget → Bool
budget_at id version b = has_budget_id id b && nat_eq b.version version

abbrev pub updated_budget : ActionBudget → ℕ → ActionBudget → ActionBudget
updated_budget b now r =
    if budget_at b.budget_id b.version r
    then record r {
      count_used = b.count_used;
      monetary_used = b.monetary_used;
      updated_at = now;
      version = b.version + 1;
    }
    else r

-- `update_budget_occ`
unfoldable pub update_budget_occ : ActionBudget → ℕ → List ActionBudget → Bool × List ActionBudget
update_budget_occ b now rows =
    (any (budget_at b.budget_id b.version) rows, map (updated_budget b now) rows)

-- `save_operator_action`, which ignores an `IntegrityError`
unfoldable pub save_operator_action : OperatorAction → List OperatorAction → List OperatorAction
save_operator_action a rows =
    if any (λ (r : OperatorAction). r.action_id == a.action_id) rows then rows else rows ++ a ∷ []

abbrev pub earliest_first : OperatorAction → OperatorAction → Bool
earliest_first x y = leb x.timestamp y.timestamp

-- `get_operator_actions_for_incident`
unfoldable pub get_operator_actions_for_incident :
    String → List OperatorAction → List OperatorAction
get_operator_actions_for_incident id rows =
    sort_by earliest_first (keep (λ (r : OperatorAction). r.incident_id == id) rows)
