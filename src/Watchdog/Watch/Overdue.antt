-- ===== src/Watchdog/Watch/Overdue.antt =====
-- An agent without progress for the hard timeout is given to a recovery.
use agentic_agnostic_orchest.Base.{
  ℕ, ◌+◌, ◌≤◌, ◌≡◌, sym, ◌∙◌, subst, String, true, false, some, List, [], ◌∷◌, le→leb, Dict, get,
  dict_keys, arith, Bool-cases, Option-cases, ◌⊎◌, inl, inr, member, ◌==◌, eq_iff, get-put_ne,
}
use agentic_agnostic_orchest.Watchdog.Agents.{recovering, same_health}
use agentic_agnostic_orchest.Watchdog.Engine.{
  WatchdogConfig, Monitor, Scene, is_resting, is_active, evaluate_active, evaluate,
}
use agentic_agnostic_orchest.Watchdog.Engine.Changes.{evaluate-Moved, hard_timeout-task}
use agentic_agnostic_orchest.Watchdog.Watch.{
  Watch, stored, evaluate_one, evaluate_each, evaluate_all,
}
use agentic_agnostic_orchest.Watchdog.Watch.Sound.{IsSound, evaluate_one-IsSound}

-- The agent works, and has made no progress for the hard timeout.
pub record IsOverdue (config : WatchdogConfig) (now : ℕ) (m : Monitor) : Type 0 where
  pub active : is_active m.state ≡ true
  pub at_work : is_resting m.state ≡ false
  pub not_in_recovery : same_health m.health recovering ≡ false
  pub late : m.last_progress_at + config.hard_timeout_s ≤ now

evaluate-overdue :
    (config : WatchdogConfig) (now : ℕ) (s : Scene)
    → IsOverdue config now s.monitor
    → member s.monitor.agent_id (evaluate config now s).desk.running ≡ true
unfolding evaluate evaluate_active
evaluate-overdue config now s o =
    rw
      (
        o.not_in_recovery,
        o.at_work,
        o.active,
        le→leb (s.monitor.last_progress_at + config.hard_timeout_s) now o.late,
      )
      (hard_timeout-task s)

-- Either the agent's monitor has not been evaluated yet, or it has a task.
abbrev IsServed : Watch → String → Monitor → Type 0
IsServed w id m = (get w.monitors id ≡ some m) ⊎ (member id w.desk.running ≡ true)

evaluate_one-other :
    (config : WatchdogConfig) (now : ℕ) (j id : String) (m : Monitor) (w : Watch)
    → IsSound w
    → IsServed w id m
    → (j == id) ≡ false
    → IsServed (evaluate_one config now j w) id m
unfolding evaluate_one stored
evaluate_one-other config now j id m w i served apart = elim (Option-cases (get w.monitors j)) [
  | inl e ↦ rw (e, evaluate_one) served
  | inr (n, e) ↦
      let s : Scene = record { monitor = n; desk = w.desk } in
      rw (e, evaluate_one)
        (elim served [
          | inl known ↦ inl (
              get-put_ne w.monitors j id (evaluate config now s).monitor
                (λ q. cc (apart, (eq_iff j id).1 q))
              ∙ known)
          | inr busy ↦ inr ((evaluate-Moved config now s).kept_tasks id busy)
        ])
]

evaluate_one-busy :
    (config : WatchdogConfig) (now : ℕ) (j id : String) (w : Watch)
    → member id w.desk.running ≡ true
    → member id (evaluate_one config now j w).desk.running ≡ true
unfolding evaluate_one stored
evaluate_one-busy config now j id w busy = elim (Option-cases (get w.monitors j)) [
  | inl e ↦ rw (e, evaluate_one) busy
  | inr (n, e) ↦
      rw (e, evaluate_one)
        ((evaluate-Moved config now (record { monitor = n; desk = w.desk })).kept_tasks id busy)
]

evaluate_one_self :
    (config : WatchdogConfig) (now : ℕ) (id : String) (m : Monitor) (w : Watch)
    → IsSound w
    → IsOverdue config now m
    → IsServed w id m
    → member id (evaluate_one config now id w).desk.running ≡ true
unfolding evaluate_one stored
evaluate_one_self config now id m w i o (inr busy) = evaluate_one-busy config now id id w busy
evaluate_one_self config now id m w i o (inl e) =
    let s : Scene = record { monitor = m; desk = w.desk } in
    rw (e, evaluate_one)
      (subst (λ z. member z (evaluate config now s).desk.running ≡ true) (i.routes id m e).0
        (evaluate-overdue config now s o))

evaluate_each-busy :
    (config : WatchdogConfig) (now : ℕ) (ids : List String) (id : String) (w : Watch)
    → member id w.desk.running ≡ true
    → member id (evaluate_each config now ids w).desk.running ≡ true
unfolding evaluate_each
evaluate_each-busy config now [] id w busy = busy
evaluate_each-busy config now (j ∷ ids) id w busy =
    evaluate_each-busy config now ids id (evaluate_one config now j w)
      (evaluate_one-busy config now j id w busy)

evaluate_each-overdue :
    (config : WatchdogConfig) (now : ℕ) (ids : List String) (id : String) (m : Monitor) (w : Watch)
    → IsSound w
    → IsOverdue config now m
    → IsServed w id m
    → member id ids ≡ true
    → member id (evaluate_each config now ids w).desk.running ≡ true
unfolding evaluate_each
evaluate_each-overdue config now [] id m w i o served h = absurd (cc h)
evaluate_each-overdue config now (j ∷ ids) id m w i o served h = elim (Bool-cases (j == id)) [
  | inl same ↦ evaluate_each-busy config now ids id (evaluate_one config now j w) (
      subst (λ z. member id (evaluate_one config now z w).desk.running ≡ true)
        (sym ((eq_iff j id).0 same)) (evaluate_one_self config now id m w i o served))
  | inr apart ↦
      evaluate_each-overdue config now ids id m (evaluate_one config now j w)
        (evaluate_one-IsSound config now j w i) o
        (evaluate_one-other config now j id m w i served apart) (ground (arith, h, apart))
]

get-keys :
    (d : Dict Monitor) (id : String) (m : Monitor)
    → get d id ≡ some m
    → member id (dict_keys d) ≡ true
unfolding get dict_keys
get-keys [] id m h = absurd (cc h)
get-keys ((k, n) ∷ d) id m h = elim (Bool-cases (k == id)) [
  | inl same ↦ ground (arith, same)
  | inr apart ↦ ground (arith, apart, get-keys d id m (rw apart at h))
]

-- In a sound state, an agent at work that is not in recovery and has made no progress for the hard
-- timeout has a recovery task after an evaluation of all agents.
pub overdue_is_recovered :
    (config : WatchdogConfig) (now : ℕ) (id : String) (m : Monitor) (w : Watch)
    → IsSound w
    → get w.monitors id ≡ some m
    → IsOverdue config now m
    → member id (evaluate_all config now w).desk.running ≡ true
unfolding evaluate_all
overdue_is_recovered config now id m w i e o =
    evaluate_each-overdue config now (dict_keys w.monitors) id m w i o (inl e)
      (get-keys w.monitors id m e)
