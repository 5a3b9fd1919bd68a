-- ===== src/Watchdog/Watch/Again.antt =====
-- A recovery that failed, and the one that follows it.
use agentic_agnostic_orchest.Base.{
  ℕ, ◌+◌, ◌≤◌, ◌≡◌, refl, String, true, false, some, get, member, get-put_self,
}
use agentic_agnostic_orchest.Watchdog.Agents.{unhealthy, recovering, same_health}
use agentic_agnostic_orchest.Watchdog.Engine.{
  WatchdogConfig, Monitor, is_active, is_resting, recovered, transition, end_task,
}
use agentic_agnostic_orchest.Watchdog.Watch.{Watch, stored, recovery_ends, evaluate_all}
use agentic_agnostic_orchest.Watchdog.Watch.Sound.{IsSound, recovery_ends-IsSound}
use agentic_agnostic_orchest.Watchdog.Watch.Stuck.{absent-filter}
use agentic_agnostic_orchest.Watchdog.Watch.Overdue.{overdue_is_recovered}

-- The monitor when a recovery has failed
abbrev after_failure : Monitor → ℕ → Monitor
after_failure m now = record m { health = unhealthy; last_seen_at = now; last_progress_at = now }

-- What a failed recovery leaves: the monitor, and no task
record Fails (now : ℕ) (id : String) (m : Monitor) (w : Watch) : Type 0 where
  monitor : get (recovery_ends now id false w).monitors id ≡ some (after_failure m now)
  no_task : member id (recovery_ends now id false w).desk.running ≡ false

recovery_ends-Fails :
    (now : ℕ) (id : String) (m : Monitor) (w : Watch)
    → get w.monitors id ≡ some m
    → m.health ≡ recovering
    → Fails now id m w
unfolding recovery_ends recovered transition stored end_task same_health
recovery_ends-Fails now id m w e h = record {
  monitor =
      rw (e, recovery_ends, h, recovered, transition)
        (get-put_self w.monitors id (after_failure m now));
  no_task = rw (e, recovery_ends, h, recovered, transition) (absent-filter id w.desk.running);
}

-- When the manager answers that it could not recover an agent at work that is being recovered,
-- then in a sound state the agent has no recovery task, and has one again after an evaluation of
-- all agents that comes at least the hard timeout later.
pub failed_recovery_is_retried :
    (config : WatchdogConfig) (now then : ℕ) (id : String) (m : Monitor) (w : Watch)
    → IsSound w
    → get w.monitors id ≡ some m
    → m.health ≡ recovering
    → is_active m.state ≡ true
    → is_resting m.state ≡ false
    → now + config.hard_timeout_s ≤ then
    → let w' = recovery_ends now id false w in
      (member id w'.desk.running ≡ false)
      × (member id (evaluate_all config then w').desk.running ≡ true)
unfolding same_health
failed_recovery_is_retried config now then id m w i e h active at_work late =
    let f = recovery_ends-Fails now id m w e h in
    (
      f.no_task,
      overdue_is_recovered config then id (after_failure m now) (recovery_ends now id false w)
          (recovery_ends-IsSound now id false w i) f.monitor
          (record { active = active; at_work = at_work; not_in_recovery = refl; late = late }),
    )
