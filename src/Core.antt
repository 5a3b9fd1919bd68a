-- ===== src/Core.antt =====
-- control-plane/core/models.py: the task envelope that the executors and the scheduler consume.
-- `max_cost_usd`, the metadata and the callbacks are carried by the program and read by none of the
-- modelled code, so they are left out; `ge=0` fields are naturals.
use agentic_agnostic_orchest.Base.{ℕ, String, Option}

pub data OperationMode : Type 0 where
  terminal socket : OperationMode

pub record TaskBudget : Type 0 where
  pub max_tokens : Option ℕ
  pub timeout_seconds : Option ℕ
  pub seat_seconds : Option ℕ

pub record TaskEnvelope : Type 0 where
  pub task_id : String
  pub tenant_id : String
  pub project_id : String
  pub assignee_runtime : String
  pub prompt : String
  pub budget : TaskBudget
  pub credential_ref : String
  pub operation_mode : OperationMode
  pub issue_id : Option String
  pub agent_id : Option String
  pub account_id : Option String
