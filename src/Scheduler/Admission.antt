-- ===== src/Scheduler/Admission.antt =====
-- control-plane/scheduler/scheduler.py: `QuotaAwareScheduler`. The vendor call that a task makes is
-- a function from the attempt's number to its outcome, the generator's draws a function from the
-- attempt's number to the draw. One call of a method runs alone.
pub mod Decisions
pub mod Rounds
pub mod Retries
use agentic_agnostic_orchest.Base.{
  ℕ, suc, zero, ◌+◌, String, Bool, true, false, not, ◌||◌, Option, none, some, List, [], ◌∷◌, ◌++◌,
  get_or, eqb, ltb, if◌then◌else◌, or_else,
}
use agentic_agnostic_orchest.Base.Int.{ℤ, pos, ◌+ℤ◌, ◌-ℤ◌, leb_ℤ, max_ℤ}
use agentic_agnostic_orchest.Core.{TaskEnvelope}
use agentic_agnostic_orchest.Scheduler.Reals.{Reals}
use agentic_agnostic_orchest.Scheduler.Backoff.{
  BackoffPolicy, Delay, delay, seconds, below_one, overflow,
}
use agentic_agnostic_orchest.Scheduler.Quota.{RedisHash, QuotaLedger, has_headroom, reserve}

pub data AdmissionStatus : Type 0 where
  dispatch queued waiting_on_quota waiting_on_concurrency : AdmissionStatus

pub data Reason : Type 0 where
  admitted_now ceiling_reached quota_exhausted : Reason
  rate_limited_after : ℕ → Reason

pub record AdmissionDecision : Type 0 where
  pub status : AdmissionStatus
  pub reason : Reason
  pub vendor : String
  pub estimated_burn_seconds : ℤ

-- `AdmissionDecision.admitted`
unfoldable pub admitted : AdmissionDecision → Bool
admitted d = elim d.status [ dispatch ↦ true | _ ↦ false ]

pub record ScheduledTask : Type 0 where
  pub task : TaskEnvelope
  pub vendor : String
  pub estimated_burn_seconds : ℤ
  pub reason : Reason

-- `estimated_burn_seconds or task.budget.seat_seconds or 0`: none and zero are passed over.
unfoldable pub or_zero : Option ℤ → ℤ → ℤ
or_zero none d = d
or_zero (some (pos zero)) d = d
or_zero (some e) d = e

unfoldable pub seat_seconds_or_zero : TaskEnvelope → ℤ
seat_seconds_or_zero task = pos (get_or task.budget.seat_seconds 0)

-- `vendor or task.assignee_runtime`
unfoldable pub vendor_of : Option String → TaskEnvelope → String
vendor_of vendor task = or_else (get_or vendor "") task.assignee_runtime

-- What a call of the vendor does: it answers, it raises VendorRateLimitError with a status code, or
-- it raises another exception.
pub data Outcome (A : Type 0) : Type 0 where
  returned : A → Outcome A
  rate_limited : ℕ → Outcome A
  raised : String → Outcome A

-- What `dispatch_with_backoff` does: it answers the vendor's value, which may be None as well, it
-- parks the task and answers None, or it raises.
pub data Reply (A : Type 0) : Type 0 where
  value : A → Reply A
  gave_up : Reply A
  raises_rate_limit : ℕ → Reply A
  raises : String → Reply A
  value_error : Reply A
  overflow_error : Reply A

module _ (R : Reals) (H : RedisHash) where
  pub record Scheduler : Type 0 where
    pub quota : QuotaLedger H
    pub max_concurrent : ℤ
    pub backoff : BackoffPolicy R
    pub running_count : ℤ
    pub queue : List ScheduledTask
    pub backoff_log : List R.Real

  -- `QuotaAwareScheduler.__init__`; `none` is its ValueError.
  unfoldable pub new_scheduler : QuotaLedger H → ℤ → BackoffPolicy R → Option Scheduler
  new_scheduler quota max_concurrent backoff =
      if leb_ℤ (pos 1) max_concurrent
      then some (record {
        quota = quota;
        max_concurrent = max_concurrent;
        backoff = backoff;
        running_count = pos 0;
        queue = [];
        backoff_log = [];
      })
      else none

  -- `_queue`
  unfoldable pub enqueue :
      Scheduler
      → TaskEnvelope
      → String
      → ℤ
      → AdmissionStatus
      → Reason
      → AdmissionDecision × Scheduler
  enqueue s task vendor estimate status reason = (
    record { status = status; reason = reason; vendor = vendor; estimated_burn_seconds = estimate },
    record s {
      queue =
          s.queue
          ++ record {
            task = task;
            vendor = vendor;
            estimated_burn_seconds = estimate;
            reason = reason;
          }
            ∷ [];
    },
  )

  -- `admit` at the time `now`
  unfoldable pub admit :
      Scheduler → TaskEnvelope → Option String → Option ℤ → ℕ → AdmissionDecision × Scheduler
  unfolding enqueue
  admit s task vendor estimated now =
      let task_vendor = vendor_of vendor task in
      let estimate = or_zero estimated (seat_seconds_or_zero task) in
      if leb_ℤ s.max_concurrent s.running_count
      then enqueue s task task_vendor estimate waiting_on_concurrency ceiling_reached
      else if not (has_headroom H s.quota task_vendor estimate)
      then enqueue s task task_vendor estimate waiting_on_quota quota_exhausted
      else (
        record {
          status = dispatch;
          reason = admitted_now;
          vendor = task_vendor;
          estimated_burn_seconds = estimate;
        },
        record s { quota = reserve H s.quota task_vendor estimate now },
      )

  -- `complete_one`
  unfoldable pub complete_one : Scheduler → Scheduler
  complete_one s = record s { running_count = max_ℤ (pos 0) (s.running_count -ℤ pos 1) }

  -- `self.running_count += 1` and the `finally` of `dispatch_with_backoff`
  unfoldable pub enter : Scheduler → Scheduler
  enter s = record s { running_count = s.running_count +ℤ pos 1 }

  unfoldable pub leave : Scheduler → Scheduler
  leave s = record s { running_count = s.running_count -ℤ pos 1 }

  module _ {A : Type 0} (task : TaskEnvelope) (call : ℕ → Outcome A) (random : ℕ → R.Real) where
    -- After the loop: the task goes back to the queue.
    unfoldable pub give_up : ℕ → Scheduler → Reply A × Scheduler
    unfolding enqueue seat_seconds_or_zero
    give_up attempts s = (
      gave_up,
      (enqueue s task task.assignee_runtime (seat_seconds_or_zero task) queued
          (rate_limited_after attempts)).1,
    )

    unfoldable pub log_delay : Scheduler → R.Real → Scheduler
    log_delay s d = record s { backoff_log = s.backoff_log ++ d ∷ [] }

    -- The rounds of `for attempt in range(1, attempts + 1)` from `attempt` on; `left` counts those
    -- behind this one.
    unfoldable pub try_from : ℕ → ℕ → ℕ → Scheduler → Reply A × Scheduler
    unfolding give_up log_delay
    try_from zero attempt attempts s = give_up attempts s
    try_from (suc left) attempt attempts s = elim (call attempt) [
      | returned a ↦ (value a, s)
      | raised e ↦ (raises e, s)
      | rate_limited code ↦
          let again : Reply A × Scheduler = elim (delay R s.backoff attempt (random attempt)) [
            | below_one ↦ (value_error, s)
            | overflow ↦ (overflow_error, s)
            | seconds d ↦ try_from left (attempt + 1) attempts (log_delay s d)
          ] in
          if not (eqb code 429 || eqb code 503)
          then (raises_rate_limit code, s)
          else if eqb attempt attempts
          then give_up attempts s
          else again
    ]

    unfoldable pub dispatch_with_backoff : Scheduler → ℕ → Reply A × Scheduler
    unfolding try_from enter leave
    dispatch_with_backoff s attempts =
        if ltb attempts 1
        then (value_error, s)
        else (let (reply, s') = try_from attempts 1 attempts (enter s) in (reply, leave s'))
