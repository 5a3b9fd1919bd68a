-- ===== src/Watchdog/Watch/Sound.antt =====
-- The published changes and the recovery tasks, and that the steps of the handlers keep them sound.
use agentic_agnostic_orchest.Base.{
  ℕ, ◌≡◌, refl, sym, ◌∙◌, ap, subst, String, Bool, false, not, Option, none, some, List, [], ◌∷◌,
  ◌++◌, get, put, dict_keys, arith, Bool-cases, Option-cases, inl, inr, filter, member, IsDistinct,
  ◌==◌, eq_iff, get-put, get-put_self,
}
use agentic_agnostic_orchest.Watchdog.Agents.{Health, AgentRow}
use agentic_agnostic_orchest.Watchdog.Engine.{
  WatchdogConfig, Monitor, Scene, evaluate, recovered, end_task,
}
use agentic_agnostic_orchest.Watchdog.Engine.Routes.{Route, stays, Route-append, Moved}
use agentic_agnostic_orchest.Watchdog.Engine.Changes.{evaluate-Moved, recovered-Moved}
use agentic_agnostic_orchest.Watchdog.Watch.{
  Watch, monitor_of, new_monitor, load_row, scene_of, stored, evaluate_one, evaluate_each,
  evaluate_all, recovery_ends,
}
use agentic_agnostic_orchest.Watchdog.Watch.Published.{
  changes_of, changes_of-append, Route-own, Route-others,
}

-- Every monitor's health is where the published changes of its agent lead, and no agent has two
-- recovery tasks.
pub record IsSound (w : Watch) : Type 0 where
  pub routes :
      (id : String) (m : Monitor)
      → get w.monitors id ≡ some m
      → (m.agent_id ≡ id) × ((h : Health) × Route id h (changes_of id w.desk.published) m.health)
  pub silent : (id : String) → get w.monitors id ≡ none → changes_of id w.desk.published ≡ []
  pub one_task : IsDistinct w.desk.running

-- The scene of a monitor, or of a new one
pub record IsScene (w : Watch) (id : String) (s : Scene) : Type 0 where
  pub desk : s.desk ≡ w.desk
  pub own : s.monitor.agent_id ≡ id
  pub route : (h : Health) × Route id h (changes_of id w.desk.published) s.monitor.health

loaded_id :
    (row : Option AgentRow) (id : String) (now : ℕ)
    → (load_row row (new_monitor id now)).agent_id ≡ id
unfolding load_row new_monitor
loaded_id none id now = refl
loaded_id (some row) id now = refl

scene_of-IsScene :
    (w : Watch) (id : String) (now : ℕ) → IsSound w → IsScene w id (scene_of w id now)
unfolding scene_of monitor_of
scene_of-IsScene w id now i = elim (Option-cases (get w.monitors id)) [
  | inl e ↦ record {
    desk = refl;
    own = rw (e, monitor_of) (loaded_id (get w.desk.agents id) id now);
    route =
        let h = (scene_of w id now).monitor.health in
        (h, subst (λ l. Route id h l h) (sym (i.silent id e)) (stays h));
  }
  | inr (m, e) ↦ record {
    desk = refl;
    own = rw (e, monitor_of) (i.routes id m e).0;
    route = rw (e, monitor_of) (i.routes id m e).1;
  }
]

published_own :
    (w : Watch) (id : String) (s t : Scene) (c : IsScene w id s) (m : Moved s t)
    → changes_of id t.desk.published ≡ m.changes ++ changes_of id w.desk.published
published_own w id s t c m =
    rw (m.published, c.desk, changes_of-append id m.changes w.desk.published)
      (ap (λ l. l ++ changes_of id w.desk.published)
        (Route-own id s.monitor.health t.monitor.health m.changes
          (subst (λ z. Route z s.monitor.health m.changes t.monitor.health) c.own m.route)))

published_others :
    (w : Watch) (id : String) (s t : Scene) (c : IsScene w id s) (m : Moved s t)
    → (j : String) → (id == j) ≡ false
    → changes_of j t.desk.published ≡ changes_of j w.desk.published
published_others w id s t c m j ne =
    rw (m.published, c.desk, changes_of-append j m.changes w.desk.published)
      (ap (λ l. l ++ changes_of j w.desk.published)
        (Route-others id s.monitor.health t.monitor.health m.changes
          (subst (λ z. Route z s.monitor.health m.changes t.monitor.health) c.own m.route) j ne))

Moved-Route :
    (w : Watch) (id : String) (s t : Scene) (c : IsScene w id s) (m : Moved s t)
    → (t.monitor.agent_id ≡ id)
      × ((h : Health) × Route id h (changes_of id t.desk.published) t.monitor.health)
Moved-Route w id s t c m =
    let (h, r) = c.route in
    (
      m.same_agent ∙ c.own,
      (
        h,
        rw (published_own w id s t c m) (
            Route-append id h s.monitor.health t.monitor.health (changes_of id w.desk.published)
              m.changes r
              (subst (λ z. Route z s.monitor.health m.changes t.monitor.health) c.own m.route)),
      ),
    )

some_monitor : (a b : Monitor) → some a ≡ some b → a ≡ b
some_monitor a b h = cc h

stored-IsSound :
    (w : Watch) (id : String) (s t : Scene)
    → IsSound w
    → IsScene w id s
    → Moved s t
    → IsSound (stored w id t)
unfolding stored
stored-IsSound w id s t i c m = record {
  routes = λ j n e. elim (Bool-cases (id == j)) [
    | inl same ↦
        let here = (eq_iff id j).0 same in
        let found : t.monitor ≡ n = some_monitor t.monitor n (
          sym (get-put_self w.monitors id t.monitor)
          ∙ ap (get (put w.monitors id t.monitor)) here
          ∙ e) in
        subst
          (λ z.
            (n.agent_id ≡ z) × ((h : Health) × Route z h (changes_of z t.desk.published) n.health))
          here
          (subst
            (λ k.
              (k.agent_id ≡ id)
              × ((h : Health) × Route id h (changes_of id t.desk.published) k.health))
            found (Moved-Route w id s t c m))
    | inr other ↦
        rw (published_others w id s t c m j other)
          (i.routes j n (ground (arith, e, get-put w.monitors id j t.monitor, other)))
  ];
  silent = λ j e. elim (Bool-cases (id == j)) [
    | inl same ↦ absurd (ground (arith, e, get-put w.monitors id j t.monitor, same))
    | inr other ↦
        published_others w id s t c m j other
        ∙ i.silent j (ground (arith, e, get-put w.monitors id j t.monitor, other))
  ];
  one_task = m.tasks (subst (λ d. IsDistinct d.running) (sym c.desk) i.one_task);
}

known-IsScene :
    (w : Watch) (id : String) (m : Monitor)
    → IsSound w
    → get w.monitors id ≡ some m
    → IsScene w id (record { monitor = m; desk = w.desk })
known-IsScene w id m i e = record {
  desk = refl;
  own = (i.routes id m e).0;
  route = (i.routes id m e).1;
}

pub evaluate_one-IsSound :
    (config : WatchdogConfig) (now : ℕ) (id : String) (w : Watch)
    → IsSound w
    → IsSound (evaluate_one config now id w)
unfolding evaluate_one
evaluate_one-IsSound config now id w i = elim (Option-cases (get w.monitors id)) [
  | inl e ↦ rw (e, evaluate_one) i
  | inr (m, e) ↦
      let s : Scene = record { monitor = m; desk = w.desk } in
      rw (e, evaluate_one)
        (stored-IsSound w id s (evaluate config now s) i (known-IsScene w id m i e)
          (evaluate-Moved config now s))
]

evaluate_each-IsSound :
    (config : WatchdogConfig) (now : ℕ) (ids : List String) (w : Watch)
    → IsSound w
    → IsSound (evaluate_each config now ids w)
unfolding evaluate_each
evaluate_each-IsSound config now [] w i = i
evaluate_each-IsSound config now (id ∷ ids) w i =
    evaluate_each-IsSound config now ids (evaluate_one config now id w)
      (evaluate_one-IsSound config now id w i)

pub evaluate_all-IsSound :
    (config : WatchdogConfig) (now : ℕ) (w : Watch)
    → IsSound w
    → IsSound (evaluate_all config now w)
unfolding evaluate_all
evaluate_all-IsSound config now w i = evaluate_each-IsSound config now (dict_keys w.monitors) w i

absent-filter :
    (x id : String) (xs : List String)
    → member x xs ≡ false
    → member x (filter (λ y. not (y == id)) xs) ≡ false
absent-filter x id [] h = refl
absent-filter x id (y ∷ ys) h = ground (arith, absent-filter x id ys)

IsDistinct-filter :
    (id : String) (xs : List String) → IsDistinct xs → IsDistinct (filter (λ x. not (x == id)) xs)
IsDistinct-filter id [] d = tt
IsDistinct-filter id (x ∷ xs) d =
    ground (arith, IsDistinct-filter id xs d.1, absent-filter x id xs d.0)

pub ended-IsSound :
    (w : Watch) (id : String) → IsSound w → IsSound (record w { desk = end_task id w.desk })
unfolding end_task
ended-IsSound w id i = record {
  routes = i.routes;
  silent = i.silent;
  one_task = IsDistinct-filter id w.desk.running i.one_task;
}

pub recovery_ends-IsSound :
    (now : ℕ) (id : String) (success : Bool) (w : Watch)
    → IsSound w
    → IsSound (recovery_ends now id success w)
unfolding recovery_ends
recovery_ends-IsSound now id success w i = elim (Option-cases (get w.monitors id)) [
  | inl e ↦ rw (e, recovery_ends) i
  | inr (m, e) ↦
      let s : Scene = record { monitor = m; desk = w.desk } in
      let t = recovered now success s in
      rw (e, recovery_ends)
        (ended-IsSound (stored w id t) id
          (stored-IsSound w id s t i (known-IsScene w id m i e) (recovered-Moved now success s)))
]
