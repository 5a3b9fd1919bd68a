-- ===== src/Dispatch/Tasks.antt =====
-- herdmaster/src/herdmaster/db/repositories.py, `TaskRepo`: the table of tasks, with its statements as
-- functions. `id` is the primary key, so that the table is a dictionary. Times are microseconds, as the
-- database keeps them; `_normalize_value` reads them as `in_seconds`.
use agentic_agnostic_orchest.Base.{
  ℕ, zero, ◌+◌, ◌-◌, ◌*◌, ◌/◌, ◌^◌, ◌&&◌, not, member, leb, String, Bool, true, false, Option, none,
  some, List, [], ◌∷◌, ◌++◌, Dict, get, put, contains, dict_values, ltb, eqb, if◌then◌else◌, filter,
  all, sort_by, str_leq,
}
use agentic_agnostic_orchest.Base.Int.{ℤ, pos, ◌-ℤ◌}

pub data TaskState : Type 0 where
  queued assigned dispatched in_progress blocked done failed timeout cancelled : TaskState

pub record Task : Type 0 where
  pub id : String
  pub project_id : Option String
  pub title : String
  pub description : Option String
  pub prompt : String
  pub state : TaskState
  pub blocked_reason : Option String
  pub priority : ℕ
  pub assigned_to : Option String
  pub depends_on : List String
  pub created_by : Option String
  pub dispatched_at : Option ℕ
  pub started_at : Option ℕ
  pub completed_at : Option ℕ
  pub completed_by : Option String
  pub evidence : Option String
  pub duration_seconds : Option ℤ
  pub error_message : Option String
  pub retry_count : ℕ
  pub max_retries : ℕ
  pub timeout_seconds : ℕ
  pub created_at : ℕ
  pub updated_at : ℕ
  pub version : ℕ

-- A row of `task_audit_log`, its notes left out.
pub record AuditRow : Type 0 where
  pub task_id : String
  pub agent_id : Option String
  pub event : String
  pub evidence : Option String

-- The tables `tasks` and `task_audit_log`, and the ids in the tables `agents` and `projects`, which
-- foreign keys of `tasks` name.
pub record Store : Type 0 where
  pub tasks : Dict Task
  pub audit : List AuditRow
  pub agents : List String
  pub projects : List String

-- The arguments of `create`; `task_id` is the caller's or the one that `new_id` made.
pub record NewTask : Type 0 where
  pub task_id : String
  pub title : String
  pub prompt : String
  pub project_id : Option String
  pub description : Option String
  pub priority : ℕ
  pub assigned_to : Option String
  pub depends_on : List String
  pub created_by : Option String
  pub max_retries : ℕ
  pub timeout_seconds : ℕ

-- The row that the INSERT makes, with the defaults of the schema.
unfoldable pub new_row : NewTask → ℕ → Task
new_row n now = record {
  id = n.task_id;
  project_id = n.project_id;
  title = n.title;
  description = n.description;
  prompt = n.prompt;
  state = queued;
  blocked_reason = none;
  priority = n.priority;
  assigned_to = n.assigned_to;
  depends_on = n.depends_on;
  created_by = n.created_by;
  dispatched_at = none;
  started_at = none;
  completed_at = none;
  completed_by = none;
  evidence = none;
  duration_seconds = none;
  error_message = none;
  retry_count = 0;
  max_retries = n.max_retries;
  timeout_seconds = n.timeout_seconds;
  created_at = now;
  updated_at = now;
  version = 1;
}

-- `UPDATE tasks SET ... WHERE id = ?`, with `cur.rowcount == 1`
unfoldable pub update_row : Store → String → (Task → Task) → Bool × Store
update_row s id f = elim (get s.tasks id) [
  | none ↦ (false, s)
  | some t ↦ (true, record s { tasks = put s.tasks id (f t) })
]

-- `get`
unfoldable pub get_task : Store → String → Option Task
get_task s id = get s.tasks id

unfoldable pub update_state : Store → String → TaskState → ℕ → Bool × Store
unfolding update_row
update_state s id state now = update_row s id λ t. record t { state = state; updated_at = now }

unfoldable pub set_blocked : Store → String → String → ℕ → Bool × Store
unfolding update_row
set_blocked s id reason now =
    update_row s id
      λ t. record t { state = blocked; blocked_reason = some reason; updated_at = now }

-- `value.astimezone(UTC).replace(microsecond=0)`
unfoldable pub in_seconds : ℕ → ℕ
in_seconds t = t / 1000000

-- `WHERE id = ? AND version = ?`; `none` is the violation of the foreign key of `assigned_to`, which
-- only a row that is updated can meet, and which leaves the tables as they were.
unfoldable pub claim : Store → String → String → ℕ → ℕ → Option (Bool × Store)
claim s id agent expected_version now = elim (get s.tasks id) [
  | none ↦ some (false, s)
  | some t ↦
      if eqb t.version expected_version
      then if member agent s.agents
        then some (
          true,
          record s {
            tasks = put s.tasks id (record t {
              state = assigned;
              assigned_to = some agent;
              version = t.version + 1;
              updated_at = now;
            });
          },
        )
        else none
      else some (false, s)
]

-- `dispatched_at` is `utc_now()`, a whole second.
unfoldable pub set_dispatched : Store → String → ℕ → Bool × Store
unfolding update_row in_seconds
set_dispatched s id now = update_row s id λ t. record t {
  state = dispatched;
  dispatched_at = some (in_seconds now * 1000000);
  updated_at = now;
}

unfoldable pub increment_retry : Store → String → ℕ → Bool × Store
unfolding update_row
increment_retry s id now =
    update_row s id λ t. record t { retry_count = t.retry_count + 1; updated_at = now }

-- `task.get("started_at") or task.get("dispatched_at")`
unfoldable pub started : Task → Option ℕ
started t = elim t.started_at [ some at_time ↦ some at_time | none ↦ t.dispatched_at ]

-- `not duration_seconds`
unfoldable pub no_duration : Option ℤ → Bool
no_duration none = true
no_duration (some (pos zero)) = true
no_duration (some d) = false

-- `int((now - start).total_seconds())`, which cuts towards zero
unfoldable pub seconds_between : ℕ → ℕ → ℤ
seconds_between start now =
    if leb start now then pos ((now - start) / 1000000) else pos 0 -ℤ pos ((start - now) / 1000000)

-- The duration that `complete` writes; the start is read in whole seconds.
unfoldable pub duration_of : Task → Option ℤ → ℕ → Option ℤ
unfolding started no_duration seconds_between in_seconds
duration_of t given now =
    if no_duration given
    then elim (started t) [
      | none ↦ given
      | some start ↦ some (seconds_between (in_seconds start * 1000000) now)
    ]
    else given

unfoldable pub is_queued : Task → Bool
is_queued t = elim t.state [ queued ↦ true | _ ↦ false ]

unfoldable pub is_done : Option Task → Bool
is_done none = false
is_done (some t) = elim t.state [ done ↦ true | _ ↦ false ]

-- `ORDER BY priority, created_at, id`
unfoldable pub task_leq : Task → Task → Bool
task_leq a b =
    if ltb a.priority b.priority
    then true
    else if ltb b.priority a.priority
    then false
    else if ltb a.created_at b.created_at
    then true
    else if ltb b.created_at a.created_at
    then false
    else str_leq a.id b.id

-- `list(state="queued")`
unfoldable pub list_queued : Store → List Task
list_queued s = sort_by task_leq (filter is_queued (dict_values s.tasks))

-- `_dependencies_done`
unfoldable pub dependencies_done : Store → List String → Bool
dependencies_done s ids = all (λ id. is_done (get s.tasks id)) ids

unfoldable pub list_ready : Store → List Task
list_ready s = filter (λ t. dependencies_done s t.depends_on) (list_queued s)

-- A foreign key that is NULL or names a row
unfoldable pub refers_to : List String → Option String → Bool
refers_to ids none = true
refers_to ids (some id) = member id ids

-- What fits a column of type INTEGER
unfoldable pub fits_integer : ℕ → Bool
fits_integer n = ltb n (2 ^ 31)

-- The foreign keys and the ranges of a row to be inserted
unfoldable pub is_accepted : Store → NewTask → Bool
unfolding refers_to fits_integer
is_accepted s n =
    refers_to s.projects n.project_id
    && refers_to s.agents n.assigned_to
    && refers_to s.agents n.created_by
    && fits_integer n.priority
    && fits_integer n.max_retries
    && fits_integer n.timeout_seconds

-- `accepts` tells whether the database takes an audit row, whose failure `_write_audit` swallows.
module _ (accepts : AuditRow → Bool) where
  unfoldable pub write_audit : Store → AuditRow → Store
  write_audit s row = if accepts row then record s { audit = s.audit ++ row ∷ [] } else s

  -- `none` is an exception of the database, which leaves the tables as they were.
  unfoldable pub create : Store → NewTask → ℕ → Option Store
  unfolding is_accepted
  create s n now =
      if contains s.tasks n.task_id
      then none
      else if not (is_accepted s n)
      then none
      else some (
          write_audit (record s { tasks = put s.tasks n.task_id (new_row n now) })
            (record {
              task_id = n.task_id;
              agent_id = n.created_by;
              event = "created";
              evidence = none;
            }))

  -- `if cur.rowcount == 1: self._write_audit(...)`
  unfoldable pub audited : Bool × Store → AuditRow → Bool × Store
  audited (found, s) row = if found then (true, write_audit s row) else (false, s)

  unfoldable pub checkin : Store → String → String → ℕ → Bool × Store
  checkin s id agent now =
      audited
        (update_row s id
          (λ t. record t { state = in_progress; started_at = some now; updated_at = now }))
        (record { task_id = id; agent_id = some agent; event = "checkin"; evidence = none })

  -- `completed_by` is None or names an agent.
  unfoldable pub complete :
      Store → String → Option ℤ → Option String → Option String → ℕ → Bool × Store
  complete s id duration completed_by evidence now =
      audited
        (update_row s id λ t. record t {
          state = done;
          completed_at = some now;
          completed_by = completed_by;
          evidence = evidence;
          duration_seconds = duration_of t duration now;
          updated_at = now;
        })
        (record { task_id = id; agent_id = completed_by; event = "checkout"; evidence = evidence })

  unfoldable pub fail : Store → String → String → TaskState → Option String → ℕ → Bool × Store
  fail s id message state agent now =
      audited
        (update_row s id λ t. record t {
          state = state;
          error_message = some message;
          completed_at = some now;
          updated_at = now;
        })
        (record { task_id = id; agent_id = agent; event = "failed"; evidence = none })
