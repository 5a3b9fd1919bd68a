-- ===== src/Watchdog/Engine/Routes.antt =====
-- The machine of an agent's health, and the routes through it that are published.
use agentic_agnostic_orchest.Base.{
  ◌≡◌, ◌≢◌, refl, sym, ◌∙◌, ap, subst, String, true, false, List, [], ◌∷◌, ◌++◌, arith, member,
  IsDistinct, ◌==◌, eq_iff,
}
use agentic_agnostic_orchest.Watchdog.Agents.{
  Health, healthy, suspect, unhealthy, recovering, other, same_health,
}
use agentic_agnostic_orchest.Watchdog.Engine.{Reason, StateChange, Scene}

pub eq_of_same_health : (a b : Health) → same_health a b ≡ true → a ≡ b
unfolding same_health
eq_of_same_health (other s) (other t) h = ap other ((eq_iff s t).0 h)
eq_of_same_health a b h = ground arith

pub same_health_self : (a : Health) → same_health a a ≡ true
unfolding same_health
same_health_self (other s) = (eq_iff s s).1 refl
same_health_self a = ground arith

-- Suspicion only falls on a healthy agent, and a recovery only starts for an unhealthy one.
pub data IsEdge : Health → Health → Type 0 where
  falls_silent : IsEdge healthy suspect
  is_lost : (h : Health) → IsEdge h unhealthy
  is_rescued : IsEdge unhealthy recovering
  is_well : (h : Health) → IsEdge h healthy

-- The changes of an agent, newest first, lead from one health to another: each starts where the one
-- before it ended and follows an edge.
pub data Route (id : String) : Health → List StateChange → Health → Type 0 where
  stays : (h : Health) → Route id h [] h
  moves :
      (a b c : Health) (r : Reason) (changes : List StateChange)
      → Route id a changes b
      → b ≢ c
      → IsEdge b c
      → Route id a (record { agent_id = id; previous = b; health = c; reason = r } ∷ changes) c

pub Route-append :
    (id : String) (a b c : Health) (xs ys : List StateChange)
    → Route id a xs b
    → Route id b ys c
    → Route id a (ys ++ xs) c
Route-append id a b c xs ys r (stays _) = r
Route-append id a b c xs ys r (moves _ d _ reason changes q n e) =
    moves a d c reason (changes ++ xs) (Route-append id a b d xs changes r q) n e

-- From `s` to `t` the agent's health took a route, which was published, and no agent has a second
-- recovery task.
pub record Moved (s t : Scene) : Type 0 where
  pub changes : List StateChange
  pub route : Route s.monitor.agent_id s.monitor.health changes t.monitor.health
  pub published : t.desk.published ≡ changes ++ s.desk.published
  pub same_agent : t.monitor.agent_id ≡ s.monitor.agent_id
  pub tasks : IsDistinct s.desk.running → IsDistinct t.desk.running
  pub kept_tasks : (x : String) → member x s.desk.running ≡ true → member x t.desk.running ≡ true
  pub other_tasks :
      (x : String)
      → (s.monitor.agent_id == x) ≡ false
      → member x t.desk.running ≡ member x s.desk.running

append_assoc : (xs ys zs : List StateChange) → (xs ++ ys) ++ zs ≡ xs ++ (ys ++ zs)
append_assoc [] ys zs = refl
append_assoc (x ∷ xs) ys zs = ap (λ l. x ∷ l) (append_assoc xs ys zs)

pub still-Moved :
    (s t : Scene)
    → t.monitor.health ≡ s.monitor.health
    → t.desk.published ≡ s.desk.published
    → t.monitor.agent_id ≡ s.monitor.agent_id
    → t.desk.running ≡ s.desk.running
    → Moved s t
still-Moved s t h p a r = record {
  changes = [];
  route =
      subst (λ z. Route s.monitor.agent_id s.monitor.health [] z) (sym h) (stays s.monitor.health);
  published = p;
  same_agent = a;
  tasks = λ d. subst IsDistinct (sym r) d;
  kept_tasks = λ x h. ap (member x) r ∙ h;
  other_tasks = λ x ne. ap (member x) r;
}

pub then-Moved : (s t u : Scene) → Moved s t → Moved t u → Moved s u
then-Moved s t u m n = record {
  changes = n.changes ++ m.changes;
  route =
      Route-append s.monitor.agent_id s.monitor.health t.monitor.health u.monitor.health m.changes
        n.changes m.route
        (subst (λ z. Route z t.monitor.health n.changes u.monitor.health) m.same_agent n.route);
  published =
      n.published
      ∙ ap (λ z. n.changes ++ z) m.published
      ∙ sym (append_assoc n.changes m.changes s.desk.published);
  same_agent = n.same_agent ∙ m.same_agent;
  tasks = λ d. n.tasks (m.tasks d);
  kept_tasks = λ x h. n.kept_tasks x (m.kept_tasks x h);
  other_tasks = λ x ne.
      n.other_tasks x (subst (λ z. (z == x) ≡ false) (sym m.same_agent) ne) ∙ m.other_tasks x ne;
}
