-- ===== src/Dispatch/Queue.antt =====
-- herdmaster/src/herdmaster/dispatch/queue.py, `TaskQueue`: the lifecycle of a task over its table.
-- Each method runs alone; `Queue/Histories` has a second process between two of its statements.
pub mod Claims
pub mod Lifecycle
pub mod Methods
pub mod Histories
use agentic_agnostic_orchest.Base.{
  ℕ, ◌+◌, String, Bool, true, false, Option, none, some, List, [], ◌∷◌, Dict, get, leb, ltb,
  str_leq, lower, if◌then◌else◌, sort_by,
}
use agentic_agnostic_orchest.Base.Int.{ℤ, pos, negsuc}
use agentic_agnostic_orchest.Dispatch.Tasks.{
  TaskState, queued, assigned, dispatched, in_progress, blocked, done, failed, timeout, cancelled,
  Task, Store, NewTask, AuditRow, update_row, get_task, update_state, claim, set_dispatched,
  increment_retry, list_ready, in_seconds, create, complete, fail,
}

-- How a method ends: with its answer, a KeyError, a TaskStateError or an exception of the database.
pub data Reply (A : Type 0) : Type 0 where
  answer : A → Reply A
  key_error : Reply A
  state_error : Reply A
  database_error : Reply A

pub record ReassignResult : Type 0 where
  pub task_id : String
  pub reassigned : Bool
  pub escalated : Bool
  pub retry_count : ℕ
  pub max_retries : ℕ

-- `PRIORITIES`
abbrev pub priorities : Dict ℕ
priorities = ("critical", 0) ∷ ("high", 1) ∷ ("normal", 2) ∷ ("low", 3) ∷ []

-- The argument `priority: str | int`
pub data Priority : Type 0 where
  level : ℤ → Priority
  named : String → Priority

-- `_priority_value`; `none` is its ValueError.
unfoldable pub priority_value : Priority → Option ℕ
unfolding get lower
priority_value (level (pos n)) = some n
priority_value (level (negsuc n)) = none
priority_value (named p) = get priorities (lower p)

-- `state in TERMINAL_STATES`
unfoldable pub is_terminal : TaskState → Bool
is_terminal done = true
is_terminal failed = true
is_terminal timeout = true
is_terminal cancelled = true
is_terminal _ = false

unfoldable pub is_assigned : TaskState → Bool
is_assigned assigned = true
is_assigned _ = false

unfoldable pub is_dispatched : TaskState → Bool
is_dispatched dispatched = true
is_dispatched _ = false

unfoldable pub is_in_progress : TaskState → Bool
is_in_progress in_progress = true
is_in_progress _ = false

-- `state in {"failed", "timeout"}`
unfoldable pub is_retryable : TaskState → Bool
is_retryable failed = true
is_retryable timeout = true
is_retryable _ = false

-- `self._get(task_id)` at the end of a method
unfoldable pub fetch : Store → String → Reply Task × Store
unfolding get_task
fetch s id = elim (get_task s id) [ none ↦ (key_error, s) | some t ↦ (answer t, s) ]

-- `if not ...: raise KeyError(task_id)`, then `self._get(task_id)`
unfoldable pub finish : String → Bool × Store → Reply Task × Store
unfolding fetch
finish id (found, s) = if found then fetch s id else (key_error, s)

-- `self._require_state(task_id, allowed, target)` before a statement
unfoldable pub transition :
    Store → String → (TaskState → Bool) → (Store → Bool × Store) → Reply Task × Store
unfolding finish get_task
transition s id allowed statement = elim (get_task s id) [
  | none ↦ (key_error, s)
  | some t ↦ if allowed t.state then finish id (statement s) else (state_error, s)
]

-- `<=` on the keys of `ready_tasks`: the priority, the time of creation as it is read, and the id
unfoldable pub ready_leq : Task → Task → Bool
ready_leq a b =
    if ltb a.priority b.priority
    then true
    else if ltb b.priority a.priority
    then false
    else if ltb (in_seconds a.created_at) (in_seconds b.created_at)
    then true
    else if ltb (in_seconds b.created_at) (in_seconds a.created_at)
    then false
    else str_leq a.id b.id

unfoldable pub ready_tasks : Store → List Task
unfolding ready_leq
ready_tasks s = sort_by ready_leq (list_ready s)

-- The loop of `claim_next`
unfoldable pub claim_first : List Task → Store → String → ℕ → Reply (Option Task) × Store
unfolding claim get_task
claim_first [] s agent now = (answer none, s)
claim_first (t ∷ ts) s agent now =
    let rest = claim_first ts s agent now in
    elim (claim s t.id agent t.version now) [
      | none ↦ (database_error, s)
      | some (won, s') ↦ if won then (answer (get_task s' t.id), s') else rest
    ]

unfoldable pub claim_next : Store → String → ℕ → Reply (Option Task) × Store
unfolding claim_first ready_tasks
claim_next s agent now = claim_first (ready_tasks s) s agent now

unfoldable pub mark_dispatched : Store → String → ℕ → Reply Task × Store
unfolding transition is_assigned
mark_dispatched s id now = transition s id is_assigned (λ u. set_dispatched u id now)

unfoldable pub mark_in_progress : Store → String → ℕ → Reply Task × Store
unfolding transition is_dispatched
mark_in_progress s id now = transition s id is_dispatched (λ u. update_state u id in_progress now)

-- `if state in TERMINAL_STATES: raise ...` of `cancel`
unfoldable pub not_terminal : TaskState → Bool
unfolding is_terminal
not_terminal s = if is_terminal s then false else true

unfoldable pub cancel : Store → String → ℕ → Reply Task × Store
unfolding transition not_terminal
cancel s id now = transition s id not_terminal (λ u. update_state u id cancelled now)

-- The UPDATE of `reassign`
unfoldable pub requeue : Store → String → ℕ → Store
unfolding update_row
requeue s id now =
    let (_, s') = update_row s id λ t. record t {
      state = queued;
      assigned_to = none;
      dispatched_at = none;
      completed_at = none;
      error_message = none;
      version = t.version + 1;
      updated_at = now;
    } in
    s'

-- `int(updated.get("retry_count") or retry_count + 1)`
unfoldable pub new_count : ℕ → ℕ → ℕ
new_count updated before = if leb updated 0 then before + 1 else updated

-- `reassign` behind its guards
unfoldable pub retry : Store → Task → String → ℕ → Reply ReassignResult × Store
unfolding increment_retry requeue new_count get_task
retry s t id now =
    let (found, s') = increment_retry s id now in
    if found
    then elim (get_task s' id) [
      | none ↦ (key_error, s')
      | some updated ↦ (
        answer (record {
          task_id = id;
          reassigned = true;
          escalated = false;
          retry_count = new_count updated.retry_count t.retry_count;
          max_retries = t.max_retries;
        }),
        requeue s' id now,
      )
    ]
    else (key_error, s')

unfoldable pub escalation : String → Task → ReassignResult
escalation id t = record {
  task_id = id;
  reassigned = false;
  escalated = true;
  retry_count = t.retry_count;
  max_retries = t.max_retries;
}

unfoldable pub reassign : Store → String → ℕ → Reply ReassignResult × Store
unfolding is_retryable retry escalation get_task
reassign s id now = elim (get_task s id) [
  | none ↦ (key_error, s)
  | some t ↦
      if is_retryable t.state
      then (if leb t.max_retries t.retry_count
          then (answer (escalation id t), s)
          else retry s t id now)
      else (state_error, s)
]

module _ (accepts : AuditRow → Bool) where
  unfoldable pub mark_done : Store → String → Option ℤ → ℕ → Reply Task × Store
  unfolding transition is_in_progress
  mark_done s id duration now =
      transition s id is_in_progress (λ u. complete accepts u id duration none none now)

  unfoldable pub mark_failed : Store → String → String → ℕ → Reply Task × Store
  unfolding transition is_in_progress
  mark_failed s id message now =
      transition s id is_in_progress (λ u. fail accepts u id message failed none now)

  unfoldable pub mark_timeout : Store → String → String → ℕ → Reply Task × Store
  unfolding transition is_in_progress
  mark_timeout s id message now =
      transition s id is_in_progress (λ u. fail accepts u id message timeout none now)

  -- `enqueue` with a priority that `_priority_value` accepts; `none` is an exception.
  unfoldable pub enqueue : Store → NewTask → Priority → ℕ → Option Store
  unfolding priority_value
  enqueue s n p now = elim (priority_value p) [
    | none ↦ none
    | some v ↦ create accepts s (record n { priority = v }) now
  ]
