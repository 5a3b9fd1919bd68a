-- ===== src/Orchestration/Workflow.antt =====
-- The data of control-plane/app/orchestration/workflow.py: steps, workflows with their validators, the
-- results of a run, and the context with its outputs. The config of a step is a dictionary of texts;
-- names, descriptions, versions, metadata and times are left out.
pub mod Ids
pub mod Dependencies
use agentic_agnostic_orchest.Base.{
  String, Bool, true, false, ◌||◌, Option, none, some, List, [], ◌∷◌, map, if◌then◌else◌, Dict, put,
  member, or_else,
}
use agentic_agnostic_orchest.Orchestration.Step.{
  RetryPolicy, StepResult, StepStatus, StepError, is_infix,
}

pub data StepType : Type 0 where
  llm_call api_call transform condition parallel : StepType

-- What `_dispatch` reads of a step: its type and its config
pub record Action : Type 0 where
  pub type : StepType
  pub config : Dict String

-- The engine reads of a `fallback` step what it dispatches.
pub record StepDefinition : Type 0 where
  pub id : String
  pub action : Action
  pub depends_on : List String
  pub retry : Option RetryPolicy
  pub fallback_action : Option Action
  pub output_key : Option String

-- `_id_no_dots`: whether an id is accepted
unfoldable pub id_no_dots : String → Bool
unfolding is_infix
id_no_dots v = if is_infix "." v || is_infix "/" v then false else true

-- `self.output_key or self.id`
unfoldable pub resolve_output_key : StepDefinition → String
resolve_output_key step = elim step.output_key [ none ↦ step.id | some key ↦ or_else key step.id ]

-- `{s.id for s in steps}`
unfoldable pub step_ids : List StepDefinition → List String
step_ids steps = map (λ s. s.id) steps

-- The loop of `_unique_step_ids`: whether no id is a second one
unfoldable pub unique_from : List String → List StepDefinition → Bool
unique_from seen [] = true
unique_from seen (step ∷ steps) =
    if member step.id seen then false else unique_from (step.id ∷ seen) steps

unfoldable pub unique_step_ids : List StepDefinition → Bool
unfolding unique_from
unique_step_ids steps = unique_from [] steps

unfoldable pub put_steps : Dict StepDefinition → List StepDefinition → Dict StepDefinition
put_steps d [] = d
put_steps d (s ∷ steps) = put_steps (put d s.id s) steps

-- `{s.id: s for s in steps}`
unfoldable pub step_map : List StepDefinition → Dict StepDefinition
unfolding put_steps
step_map steps = put_steps [] steps

-- The first dependency of a step that is no step's id
unfoldable pub unknown_dependency : List String → List String → Option String
unknown_dependency known [] = none
unknown_dependency known (dep ∷ deps) =
    if member dep known then unknown_dependency known deps else some dep

unfoldable pub unknown_from : List String → List StepDefinition → Option (String × String)
unfolding unknown_dependency
unknown_from known [] = none
unknown_from known (step ∷ steps) = elim (unknown_dependency known step.depends_on) [
  | none ↦ unknown_from known steps
  | some dep ↦ some (step.id, dep)
]

-- `validate_dependencies`: the step and the missing id of the `ValueError`
unfoldable pub validate_dependencies : List StepDefinition → Option (String × String)
unfolding unknown_from step_ids
validate_dependencies steps = unknown_from (step_ids steps) steps

-- The texts of `WorkflowResult.error`
pub data WorkflowError : Type 0 where
  unknown_step : String → String → WorkflowError
  cycle_detected : List String → WorkflowError
  stopped_at : String → Option StepError → WorkflowError

pub data WorkflowStatus : Type 0 where
  pending running completed failed cancelled partial_success timeout : WorkflowStatus

-- What a later step sees of a step: its output, or its status and its error
pub data ChainValue : Type 0 where
  value : Option String → ChainValue
  trouble : StepStatus → Option StepError → ChainValue

unfoldable pub output_for_chain : StepResult → ChainValue
output_for_chain r = elim r.status [
  | StepStatus.completed ↦ value r.result
  | StepStatus.fallback ↦ value r.result
  | other ↦ trouble r.status r.error
]

-- `ExecutionContext`, whose layers the engine itself writes: the outputs
unfoldable pub set_output : Dict ChainValue → String → ChainValue → Dict ChainValue
set_output outputs key v = put outputs key v

pub record WorkflowResult : Type 0 where
  pub status : WorkflowStatus
  pub step_results : Dict StepResult
  pub error : Option WorkflowError
  pub final_context : Option (Dict ChainValue)
