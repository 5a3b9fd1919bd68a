-- ===== src/Lib.antt =====
-- Models of the core of the agnostic orchestration platform, and of the herdmaster that runs its agents.
--
-- The control plane admits tasks under shared vendor quotas and dispatches them with backoff
-- (control-plane/scheduler). Agents work through vendor accounts, which a rotation service exchanges when
-- the tokens of one run out (control-plane/rotation): a detector reads the exhaustion from an event, and
-- the service marks the account, picks the next one from the pool, logs it in and leases it. Seats are
-- lent to agents and their subagents (control-plane/seats). A workflow runs its steps in the order of
-- their dependencies, each with retries and a fallback (control-plane/app/orchestration). The herdmaster
-- keeps a queue of tasks in a database, which agents claim (herdmaster/src/herdmaster/dispatch, db), and
-- orders the tasks of a project and estimates it (herdmaster/src/herdmaster/project); its watchdog follows
-- the health of the agents and recovers them (herdmaster/src/herdmaster/watchdog); and a policy says which
-- agent may send to which (herdmaster/src/herdmaster/acl).
--
-- Files:
--   * Base: names of the libraries, Boolean tests, lists, stable sorting, text, Python dictionaries as
--     association lists in the order of insertion, and signed integers.
--   * Core: the task envelope of control-plane/core/models.py.
--   * Scheduler/Backoff and Scheduler/Reals: scheduler/backoff.py over a parameter for floats, in which an
--     int may have no float (OverflowError).
--   * Scheduler/Quota: scheduler/quota.py, `QuotaLedger`, with Redis as a parameter; its children prove
--     what a reservation takes and that a restart keeps the ledger.
--   * Scheduler/Admission: scheduler/scheduler.py, `QuotaAwareScheduler`: `admit`,
--     `dispatch_with_backoff`, `complete_one`. Rounds follows the loop of a dispatch.
--   * Rotation/Models, Rotation/Pool, Rotation/Service, Rotation/Detector: rotation/models.py, pool.py,
--     service.py, and detector.py with trigger.py. The children of Pool prove the selection, the refresh
--     of windows and that a lease is exclusive, those of Service what `on_exhaustion` leaves behind.
--   * Seats/Pool: seats/pool.py, with the seats in a store that pool and callers share, under their ids:
--     an object that no pool knows has no counterpart. Stranded has the calls after a failed refresh.
--   * Orchestration/Step: `RetryPolicy` of workflow.py and `_execute_step` of orchestration_engine.py.
--   * Orchestration/Workflow: the definitions and validators of workflow.py. Order, Downstream and Run:
--     `_topological_sort`, `_downstream_of` and `execute_workflow` of orchestration_engine.py; the children
--     of Order follow the sort from its dictionaries (Linking, Start) through its queue and its loop
--     (Queue, Loop) to its result (Drains, Schedules, Ranks).
--   * Dispatch/Tasks and Dispatch/Queue: `TaskRepo` of db/repositories.py with its statements as functions
--     on a table, and `TaskQueue` of dispatch/queue.py. The store has the ids of the registered agents and
--     projects, which the foreign keys of a claim and of an insertion look up. Times of rows are
--     microseconds; the queue orders tasks by whole seconds, as it reads them.
--   * Acl/Engine: acl/engine.py, `AclEngine`, with fnmatch as a parameter.
--   * Watchdog/Agents, Watchdog/Recovery, Watchdog/Engine and Watchdog/Watch: `AgentRepo` as the watchdog
--     uses it, recovery.py, what the handlers of watchdog/engine.py do to one monitor, and the handlers. A
--     handler runs to its end without another one in between, the database and the publisher do not raise
--     in it, and a recovery task either closes or raises before it has touched the monitor.
--   * Planner/Eta: the depth of the critical path of project/eta.py; Chains and Depth have the longest chain.
--     Planner/Order: `_topological_order` of project/planner.py.
--   * The Examples modules run the theorems at concrete inputs.
--
-- Conventions: an operation takes its state and answers the new one; an exception is `none` or a
-- constructor of the operation's reply; the clock is an argument and counts seconds, in Dispatch
-- microseconds; error texts are constructors; letter case is that of ASCII. Code outside the repository (Redis, the vendor's call, authenticators, token providers,
-- regular expressions, fnmatch, the digits of Unicode, floats, the generator of random numbers) is a
-- parameter.
--
-- Bounds and fuel: the loops over attempts and accounts recurse on what is left of their range. On
-- fuel are the loop of a workflow step, a `while True`, for which as much fuel as attempts is enough, the
-- loop of the topological sort, for which as much as steps is, and that of the downstream search, for
-- which one more is: no id enters either queue twice. The recursions over the tasks of a project go no
-- deeper than there are tasks.
-- Integers are Python's and have no width, but for the INTEGER columns of a task that is inserted.
--
-- Not modelled: the forecast of quota burn (floats, a report only), the parsing of reset times, prompt
-- templates and subtask progress of the task queue, the text ledger that mirrors its events, the handlers of
-- the steps of a workflow, the asyncio tasks and the event stream of the watchdog, exceptions of the database
-- and the publisher in a change of health, several dispatches at once, the planning of a project
-- by an agent, the hours of an estimate (floats), the message bus, the web interface and the HTTP routes.
pub mod Base
pub mod Core
pub mod Scheduler
pub mod Rotation
pub mod Seats
pub mod Orchestration
pub mod Planner
pub mod Watchdog
pub mod Dispatch
pub mod Acl
