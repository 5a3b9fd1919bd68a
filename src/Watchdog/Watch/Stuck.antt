-- ===== src/Watchdog/Watch/Stuck.antt =====
-- A recovery task that ends by an exception before it has closed leaves its agent for good.
use agentic_agnostic_orchest.Base.{
  ℕ, ◌≡◌, refl, sym, ◌∙◌, ap, subst, String, false, not, some, List, [], ◌∷◌, get, put, dict_keys,
  arith, Bool-cases, Option-cases, inl, inr, filter, member, ◌==◌, eq_iff, get-put_self, get-put_ne,
}
use agentic_agnostic_orchest.Watchdog.Agents.{recovering, same_health}
use agentic_agnostic_orchest.Watchdog.Engine.{WatchdogConfig, Monitor, Scene, evaluate, end_task}
use agentic_agnostic_orchest.Watchdog.Engine.Changes.{evaluate-Moved}
use agentic_agnostic_orchest.Watchdog.Watch.{
  Watch, stored, evaluate_one, evaluate_each, evaluate_all, recovery_raises,
}
use agentic_agnostic_orchest.Watchdog.Watch.Sound.{
  IsSound, evaluate_one-IsSound, evaluate_all-IsSound, ended-IsSound,
}

-- The agent is being recovered, but by no task.
pub record IsLeft (w : Watch) (id : String) (m : Monitor) : Type 0 where
  pub monitor : get w.monitors id ≡ some m
  pub health : m.health ≡ recovering
  pub no_task : member id w.desk.running ≡ false

evaluate-recovering :
    (config : WatchdogConfig) (now : ℕ) (s : Scene)
    → s.monitor.health ≡ recovering
    → evaluate config now s ≡ s
unfolding evaluate same_health
evaluate-recovering config now s h = rw h refl

some_monitor : (a b : Monitor) → some a ≡ some b → a ≡ b
some_monitor a b h = cc h

evaluate_one-IsLeft :
    (config : WatchdogConfig) (now : ℕ) (j id : String) (m : Monitor) (w : Watch)
    → IsSound w
    → IsLeft w id m
    → IsLeft (evaluate_one config now j w) id m
unfolding evaluate_one stored
evaluate_one-IsLeft config now j id m w i l = elim (Option-cases (get w.monitors j)) [
  | inl e ↦ rw (e, evaluate_one) l
  | inr (n, e) ↦ elim (Bool-cases (j == id)) [
    | inl same ↦
        let here = (eq_iff j id).0 same in
        let own : n ≡ m =
          some_monitor n m (sym e ∙ subst (λ z. get w.monitors z ≡ some m) (sym here) l.monitor) in
        rw
          (
            e,
            evaluate_one,
            evaluate-recovering config now (record { monitor = n; desk = w.desk })
                (ap (λ x. x.health) own ∙ l.health),
          )
          (record {
            monitor =
                subst (λ z. get (put w.monitors j n) z ≡ some m) here
                  (get-put_self w.monitors j n ∙ ap some own);
            health = l.health;
            no_task = l.no_task;
          })
    | inr apart ↦
        let s : Scene = record { monitor = n; desk = w.desk } in
        rw (e, evaluate_one)
          (record {
            monitor =
                get-put_ne w.monitors j id (evaluate config now s).monitor
                  (λ q. cc (apart, (eq_iff j id).1 q))
                ∙ l.monitor;
            health = l.health;
            no_task =
                (evaluate-Moved config now s).other_tasks id
                  (subst (λ z. (z == id) ≡ false) (sym (i.routes j n e).0) apart)
                ∙ l.no_task;
          })
  ]
]

evaluate_each-IsLeft :
    (config : WatchdogConfig) (now : ℕ) (ids : List String) (id : String) (m : Monitor) (w : Watch)
    → IsSound w
    → IsLeft w id m
    → IsLeft (evaluate_each config now ids w) id m
unfolding evaluate_each
evaluate_each-IsLeft config now [] id m w i l = l
evaluate_each-IsLeft config now (j ∷ ids) id m w i l =
    evaluate_each-IsLeft config now ids id m (evaluate_one config now j w)
      (evaluate_one-IsSound config now j w i) (evaluate_one-IsLeft config now j id m w i l)

-- Evaluations at the given times
pub evaluations : WatchdogConfig → List ℕ → Watch → Watch
evaluations config [] w = w
evaluations config (now ∷ times) w = evaluations config times (evaluate_all config now w)

evaluations-IsLeft :
    (config : WatchdogConfig) (times : List ℕ) (id : String) (m : Monitor) (w : Watch)
    → IsSound w
    → IsLeft w id m
    → IsLeft (evaluations config times w) id m
unfolding evaluations evaluate_all
evaluations-IsLeft config [] id m w i l = l
evaluations-IsLeft config (now ∷ times) id m w i l =
    evaluations-IsLeft config times id m (evaluate_all config now w)
      (evaluate_all-IsSound config now w i)
      (evaluate_each-IsLeft config now (dict_keys w.monitors) id m w i l)

pub absent-filter :
    (id : String) (xs : List String) → member id (filter (λ x. not (x == id)) xs) ≡ false
absent-filter id [] = refl
absent-filter id (x ∷ xs) = ground (arith, absent-filter id xs)

-- When the recovery task of an agent that is being recovered ends by an exception before it has
-- touched the agent's monitor, then in a sound state no evaluation, however late, changes that
-- monitor or starts another task.
pub broken_recovery_stays :
    (config : WatchdogConfig) (times : List ℕ) (id : String) (m : Monitor) (w : Watch)
    → IsSound w
    → get w.monitors id ≡ some m
    → m.health ≡ recovering
    → IsLeft (evaluations config times (recovery_raises id w)) id m
unfolding recovery_raises end_task
broken_recovery_stays config times id m w i e h =
    evaluations-IsLeft config times id m (recovery_raises id w) (ended-IsSound w id i)
      (record { monitor = e; health = h; no_task = absent-filter id w.desk.running })
