-- ===== src/Orchestration/Order/Start.antt =====
-- The dictionaries of `_topological_sort` by the steps, before its loop.
use agentic_agnostic_orchest.Base.Int.{pos}
use agentic_agnostic_orchest.Base.{
  ◌≡◌, refl, sym, ap, ◌∙◌, subst, String, true, false, inl, inr, some, List, [], ◌∷◌, length,
  if◌then◌else◌, Dict, get, put, contains, ◌==◌, eq_iff, get-put, get-put_self, arith, Bool-cases,
  count, member, IsDistinct, Among, IsUnique, put-IsUnique,
}
use agentic_agnostic_orchest.Orchestration.Workflow.{StepDefinition, step_map, put_steps, step_ids}
use agentic_agnostic_orchest.Orchestration.Order.{
  degree, edges, for_steps, Links, linked, link_steps, no_links,
}
use agentic_agnostic_orchest.Orchestration.Order.Linking.{deps_of, link_steps-Grown}

get-for_steps :
    {V : Type 0} (c : V) (d : Dict V) (steps : List StepDefinition) (v : String)
    → get (for_steps c d steps) v ≡ (if member v (step_ids steps) then some c else get d v)
unfolding for_steps step_ids
get-for_steps c d [] v = refl
get-for_steps c d (s ∷ steps) v =
    ground (arith, get-for_steps c (put d s.id c) steps v, get-put d s.id v c)

for_steps-IsUnique :
    {V : Type 0} (c : V) (d : Dict V) (steps : List StepDefinition)
    → IsUnique d
    → IsUnique (for_steps c d steps)
unfolding for_steps
for_steps-IsUnique c d [] u = u
for_steps-IsUnique c d (s ∷ steps) u =
    for_steps-IsUnique c (put d s.id c) steps (put-IsUnique d s.id c u)

contains-put_steps :
    (d : Dict StepDefinition) (steps : List StepDefinition) (v : String)
    → contains (put_steps d steps) v ≡ (if member v (step_ids steps) then true else contains d v)
unfolding put_steps step_ids contains
contains-put_steps d [] v = refl
contains-put_steps d (s ∷ steps) v =
    ground (arith, contains-put_steps (put d s.id s) steps v, get-put d s.id v s)

pub contains-step_map :
    (steps : List StepDefinition) (v : String)
    → contains (step_map steps) v ≡ member v (step_ids steps)
unfolding step_map contains get
contains-step_map steps v = ground (arith, contains-put_steps [] steps v)

get-put_steps :
    (d : Dict StepDefinition) (steps : List StepDefinition) (v : String)
    → member v (step_ids steps) ≡ false
    → get (put_steps d steps) v ≡ get d v
unfolding put_steps step_ids
get-put_steps d [] v h = refl
get-put_steps d (s ∷ steps) v h =
    ground (arith, get-put_steps (put d s.id s) steps v, get-put d s.id v s)

-- A step under its id, among those that follow a dictionary
found_step :
    (d : Dict StepDefinition) (steps : List StepDefinition) (v : String)
    → IsDistinct (step_ids steps)
    → member v (step_ids steps) ≡ true
    → (s : StepDefinition) × (get (put_steps d steps) v ≡ some s)
      × (s.id ≡ v)
      × Among s steps
      × (s.depends_on ≡ deps_of steps v)
unfolding put_steps step_ids deps_of
found_step d [] v u m = absurd (cc m)
found_step d (s ∷ steps) v (absent, u) m = elim (Bool-cases (s.id == v)) [
  | inl same ↦
      let e = (eq_iff s.id v).0 same in
      (
        s,
        subst (λ z. get (put_steps (put d s.id s) steps) z ≡ some s) e
            (get-put_steps (put d s.id s) steps s.id absent ∙ get-put_self d s.id s),
        e,
        inl refl,
        rw same refl,
      )
  | inr other ↦
      let (t, g, i, a, q) = found_step (put d s.id s) steps v u (ground arith) in
      (t, g, i, inr a, rw other q)
]

pub get-step_map :
    (steps : List StepDefinition) (v : String)
    → IsDistinct (step_ids steps)
    → member v (step_ids steps) ≡ true
    → (s : StepDefinition) × (get (step_map steps) v ≡ some s)
      × (s.id ≡ v)
      × Among s steps
      × (s.depends_on ≡ deps_of steps v)
unfolding step_map
get-step_map steps v u m = found_step [] steps v u m

-- The links that the first loop leaves, by the steps.
pub record Ready (steps : List StepDefinition) (l : Links) : Type 0 where
  pub degrees : (v : String) → degree l.in_degree v ≡ pos (length (deps_of steps v))
  pub targets : (d v : String) → count v (edges l.graph d) ≡ count d (deps_of steps v)
  pub keys : (v : String) → contains l.in_degree v ≡ member v (step_ids steps)
  pub unique : IsUnique l.in_degree
  pub known : (v d : String) → member d (deps_of steps v) ≡ true → member d (step_ids steps) ≡ true

degree-no_links :
    (steps : List StepDefinition) (v : String) → degree (no_links steps).in_degree v ≡ pos 0
unfolding degree no_links get
degree-no_links steps v = ground (arith, get-for_steps (pos 0) [] steps v)

edges-no_links : (steps : List StepDefinition) (d : String) → edges (no_links steps).graph d ≡ []
unfolding edges no_links get
edges-no_links steps d = ground (arith, get-for_steps {V = List String} [] [] steps d)

contains-no_links :
    (steps : List StepDefinition) (v : String)
    → contains (no_links steps).in_degree v ≡ member v (step_ids steps)
unfolding contains no_links get
contains-no_links steps v = ground (arith, get-for_steps (pos 0) [] steps v)

no_links-IsUnique : (steps : List StepDefinition) → IsUnique (no_links steps).in_degree
unfolding no_links
no_links-IsUnique steps = for_steps-IsUnique (pos 0) [] steps tt

pub link_steps-Ready :
    (steps : List StepDefinition) (l : Links)
    → IsDistinct (step_ids steps)
    → link_steps (step_map steps) steps (no_links steps) ≡ linked l
    → Ready steps l
link_steps-Ready steps l u h =
    let (g, met) =
      link_steps-Grown (step_map steps) steps (no_links steps) l u
        (λ v m. contains-no_links steps v ∙ m) h in
    record {
      degrees = λ v. g.degrees v 0 (degree-no_links steps v) ∙ ap pos (omega arith);
      targets = λ d v. rw (g.targets d v, edges-no_links steps d) (omega arith);
      keys = λ v. g.keys v ∙ contains-no_links steps v;
      unique = g.unique (no_links-IsUnique steps);
      known = λ v d m. sym (contains-step_map steps d) ∙ met v d m;
    }
