-- ===== src/Governance/Models.antt =====
-- The control plane state and the action budgets of src/domain/governance/models.py, and the
-- decision of src/domain/governance/gate.py.
use financial_control_engine.Base.{
  ℕ, ◌+◌, String, Bool, ◌&&◌, Option, Result, ok, err, if◌then◌else◌, leb,
}
use financial_control_engine.Base.Int.{ℤ, ◌+ℤ◌, leb_ℤ}
use financial_control_engine.Core.Actuation.{ActuationRecord}

-- `class AutomationState`
pub data AutomationState : Type 0 where
  enabled paused : AutomationState

-- `class ControlPlaneState`
pub record ControlPlaneState : Type 0 where
  pub id : String
  pub automation_state : AutomationState
  pub reason : Option String
  pub updated_by : String
  pub updated_at : ℕ
  pub version : ℕ

-- `class BudgetPeriod`
pub data BudgetPeriod : Type 0 where
  hourly daily : BudgetPeriod

-- `class ActionBudget`; the counts are not negative.
pub record ActionBudget : Type 0 where
  pub budget_id : String
  pub target_action : String
  pub period : BudgetPeriod
  pub count_limit : ℕ
  pub monetary_limit : ℤ
  pub currency : String
  pub count_used : ℕ
  pub monetary_used : ℤ
  pub updated_at : ℕ
  pub version : ℕ

-- `ActionBudget.can_consume`
unfoldable pub can_consume : ActionBudget → ℤ → Bool
can_consume b amount =
    leb (b.count_used + 1) b.count_limit && leb_ℤ (b.monetary_used +ℤ amount) b.monetary_limit

-- The `ValueError` of `consume`.
pub data BudgetError : Type 0 where
  exhausted : BudgetError

-- `ActionBudget.consume`, at the time `now`.
unfoldable pub consume : ActionBudget → ℤ → ℕ → Result BudgetError ActionBudget
unfolding can_consume
consume b amount now =
    if can_consume b amount
    then ok (record b {
      count_used = b.count_used + 1;
      monetary_used = b.monetary_used +ℤ amount;
      updated_at = now;
    })
    else err exhausted

-- `class GovernanceGateDecision`
pub data GovernanceGateDecision : Type 0 where
  allowed blocked_by_kill_switch blocked_by_budget claim_failed : GovernanceGateDecision

-- `class GateDecision`
pub record GateDecision : Type 0 where
  pub status : GovernanceGateDecision
  pub reason : String
  pub actuation_record : Option ActuationRecord
