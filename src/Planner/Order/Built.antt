-- ===== src/Planner/Order/Built.antt =====
-- `_topological_order` puts every task after its parents.
use agentic_agnostic_orchest.Base.{
  ℕ, zero, suc, ◌+◌, ◌≤◌, ◌<◌, ◌≡◌, refl, sym, ◌∙◌, ap, subst, String, true, false, Option, none,
  some, List, [], ◌∷◌, ◌++◌, length, Among, arith, Bool-cases, Option-cases, inl, inr, ◌⊎◌, member,
  IsDistinct, IsWithin, distinct_fit, ◌==◌, eq_iff, eq_refl,
}
use agentic_agnostic_orchest.Planner.Eta.{PlannedTask}
use agentic_agnostic_orchest.Planner.Eta.Chains.{HasRanks}
use agentic_agnostic_orchest.Planner.Eta.Parents.{ids_of, length-ids, same_task}
use agentic_agnostic_orchest.Planner.Eta.Above.{IsAbove, below, top}
use agentic_agnostic_orchest.Planner.Order.{
  Visit, visit_parents, leave, visit_task, visit_all, topological_order, known_parent,
}

-- The tasks of the second list have the ids of the first, newest first: each was put after its parents,
-- and once.
pub data Built (tasks : List PlannedTask) (parent : String → Option PlannedTask)
    : List String → List PlannedTask → Type 0 where
  empty : Built tasks parent [] []
  put_last :
      (ids : List String) (ordered : List PlannedTask) (t : PlannedTask)
      → Built tasks parent ids ordered
      → Among t tasks
      → member t.id ids ≡ false
      → ((dependency : String) (p : PlannedTask)
          → member dependency t.depends_on ≡ true
          → parent dependency ≡ some p
          → member p.id ids ≡ true)
      → Built tasks parent (t.id ∷ ids) (ordered ++ (t ∷ []))

some_task : (a b : PlannedTask) → some a ≡ some b → a ≡ b
some_task a b h = cc h

module _ (tasks : List PlannedTask) (parent : String → Option PlannedTask)
    (same : (s t : PlannedTask) → Among s tasks → Among t tasks → s.id ≡ t.id → s ≡ t)
    (ranks : HasRanks tasks parent) where
  -- From `v` to `w` tasks of a rank below `limit` were added.
  record Added (limit : ℕ) (v w : Visit) : Type 0 where
    built : Built tasks parent w.visited w.ordered
    kept : IsWithin v.visited w.visited
    low :
        (s : PlannedTask)
        → Among s tasks
        → member s.id w.visited ≡ true
        → (member s.id v.visited ≡ true) ⊎ (ranks.rank s < limit)

  then-Added : (limit : ℕ) (u v w : Visit) → Added limit u v → Added limit v w → Added limit u w
  then-Added limit u v w a b = record {
    built = b.built;
    kept = λ x m. b.kept x (a.kept x m);
    low = λ s m k. elim (b.low s m k) [ inl old ↦ a.low s m old | inr lt ↦ inr lt ];
  }

  module _ (t : PlannedTask) (among : Among t tasks) (call : PlannedTask → Visit → Option Visit)
      (limit : ℕ)
      (calls : (p : PlannedTask) (v : Visit)
        → Among p tasks
        → ranks.rank p < ranks.rank t
        → Built tasks parent v.visited v.ordered
        → (w : Visit) × (call p v ≡ some w)
          × Added limit v w
          × (member p.id w.visited ≡ true)) where
    visit_parents-Added :
        (deps : List String) (v : Visit)
        → IsWithin deps t.depends_on
        → Built tasks parent v.visited v.ordered
        → (w : Visit) × (visit_parents call parent deps v ≡ some w)
          × Added limit v w
          × ((dependency : String) (p : PlannedTask)
              → member dependency deps ≡ true
              → parent dependency ≡ some p
              → member p.id w.visited ≡ true)
    unfolding visit_parents
    visit_parents-Added [] v within b = (
      v,
      refl,
      record { built = b; kept = λ x m. m; low = λ s m k. inl k },
      λ dependency p m e. absurd (cc m),
    )
    visit_parents-Added (d ∷ deps) v within b = elim (Option-cases (parent d)) [
      | inl e ↦
          let (w, run, a, all) =
            visit_parents-Added deps v (λ x m. within x (ground (arith, m))) b in
          (
            w,
            rw (e, visit_parents) run,
            a,
            λ x p m f. elim (Bool-cases (d == x)) [
              | inl here ↦ absurd (cc (subst (λ z. parent z ≡ none) ((eq_iff d x).0 here) e, f))
              | inr later ↦ all x p (ground (arith, m, later)) f
            ],
          )
      | inr (p, e) ↦
          let (known, lt) = ranks.lower t p d among (within d (ground (arith, eq_refl d))) e in
          let (u, once, a, met) = calls p v known lt b in
          let (w, run, c, all) =
            visit_parents-Added deps u (λ x m. within x (ground (arith, m))) a.built in
          (
            w,
            rw (e, visit_parents, once) run,
            then-Added limit v u w a c,
            λ x q m f. elim (Bool-cases (d == x)) [
              | inl here ↦
                  let own : p ≡ q = some_task p q (sym e ∙ ap parent ((eq_iff d x).0 here) ∙ f) in
                  c.kept q.id (subst (λ z. member z.id u.visited ≡ true) own met)
              | inr later ↦ all x q (ground (arith, m, later)) f
            ],
          )
    ]

  weaken-Added : (a b : ℕ) (v w : Visit) → a ≤ b → Added a v w → Added b v w
  weaken-Added a b v w le d = record {
    built = d.built;
    kept = d.kept;
    low = λ s m k. elim (d.low s m k) [ inl old ↦ inl old | inr lt ↦ inr (omega (arith, lt, le)) ];
  }

  left-Added :
      (t : PlannedTask) (v w : Visit)
      → Among t tasks
      → member t.id v.visited ≡ false
      → Added (ranks.rank t) v w
      → ((dependency : String) (p : PlannedTask)
          → member dependency t.depends_on ≡ true
          → parent dependency ≡ some p
          → member p.id w.visited ≡ true)
      → Added
          (suc (ranks.rank t))
          v
          (record { visited = t.id ∷ w.visited; ordered = w.ordered ++ (t ∷ []) })
  left-Added t v w among new a all = record {
    built = put_last w.visited w.ordered t a.built among fresh all;
    kept = λ x m. ground (arith, a.kept x m);
    low = λ s m k. elim (Bool-cases (t.id == s.id)) [
      | inl own ↦ inr (
          subst (λ z. ranks.rank z < suc (ranks.rank t))
            (same t s among m ((eq_iff t.id s.id).0 own)) (omega arith))
      | inr other ↦ elim (a.low s m (ground (arith, k, other))) [
        | inl old ↦ inl old
        | inr lt ↦ inr (omega (arith, lt))
      ]
    ];
  }
    where
      fresh : member t.id w.visited ≡ false
      fresh = elim (Bool-cases (member t.id w.visited)) [
        | inr absent ↦ absent
        | inl here ↦ elim (a.low t among here) [
          | inl old ↦ absurd (cc (old, new))
          | inr lt ↦ absurd (omega (arith, lt))
        ]
      ]

  visit_task-Added :
      (fuel : ℕ) (visiting : List String) (t : PlannedTask) (v : Visit)
      → Among t tasks
      → IsAbove tasks parent same ranks t visiting
      → Built tasks parent v.visited v.ordered
      → suc (length tasks) ≤ fuel + length visiting
      → (w : Visit) × (visit_task parent fuel visiting t v ≡ some w)
        × Added (suc (ranks.rank t)) v w
        × (member t.id w.visited ≡ true)
  unfolding visit_task
  visit_task-Added zero visiting t v among above b enough = absurd (
      omega (
        arith,
        enough,
        length-ids tasks,
        distinct_fit visiting (ids_of tasks) above.distinct above.within,
      ))
  visit_task-Added (suc fuel) visiting t v among above b enough =
      elim (Bool-cases (member t.id v.visited)) [
        | inl done ↦
            (v, rw done refl, record { built = b; kept = λ x m. m; low = λ s m k. inl k }, done)
        | inr new ↦ elim (Bool-cases (member t.id visiting)) [
          | inl again ↦ absurd (omega (arith, above.higher t among again))
          | inr outside ↦
              let (w, run, a, all) =
                visit_parents-Added t among (visit_task parent fuel (t.id ∷ visiting))
                  (ranks.rank t)
                  (λ p u known lt c.
                    let (x, once, d, met) =
                      visit_task-Added fuel (t.id ∷ visiting) p u known
                        (below tasks parent same ranks t p visiting among above outside lt) c
                        (omega arith) in
                    (
                      x,
                      once,
                      weaken-Added (suc (ranks.rank p)) (ranks.rank t) u x (omega (arith, lt)) d,
                      met,
                    ))
                  t.depends_on v (λ x m. m) b in
              (
                record { visited = t.id ∷ w.visited; ordered = w.ordered ++ (t ∷ []) },
                rw (new, outside, run, leave) refl,
                left-Added t v w among new a all,
                ground (arith, eq_refl t.id),
              )
        ]
      ]

  visit_all-Built :
      (todo : List PlannedTask) (v : Visit)
      → ((t : PlannedTask) → Among t todo → Among t tasks)
      → Built tasks parent v.visited v.ordered
      → (w : Visit) × (visit_all (visit_task parent (suc (length tasks)) []) todo v ≡ some w)
        × Built tasks parent w.visited w.ordered
        × IsWithin v.visited w.visited
        × ((t : PlannedTask) → Among t todo → member t.id w.visited ≡ true)
  unfolding visit_all
  visit_all-Built [] v known b = (v, refl, b, λ x m. m, λ t m. absurd m)
  visit_all-Built (t ∷ todo) v known b =
      let (u, once, a, met) =
        visit_task-Added (suc (length tasks)) [] t v (known t (inl refl))
          (top tasks parent same ranks t) b (omega arith) in
      let (w, run, c, kept, all) = visit_all-Built todo u (λ s m. known s (inr m)) a.built in
      (
        w,
        rw (once, visit_all) run,
        c,
        λ x m. kept x (a.kept x m),
        λ s m. elim m [
          | inl e ↦ subst (λ z. member z.id w.visited ≡ true) (sym e) (kept t.id met)
          | inr later ↦ all s later
        ],
      )

-- For tasks with distinct ids whose dependencies have ranks, the search ends, with as much fuel as tasks
-- and one more: every task is put in order, once, and after every task that it needs.
pub topological_order-Built :
    (tasks : List PlannedTask)
    → IsDistinct (ids_of tasks)
    → HasRanks tasks (known_parent tasks)
    → (ordered : List PlannedTask) × (ids : List String) × (topological_order tasks ≡ some ordered)
      × Built tasks (known_parent tasks) ids ordered
      × ((t : PlannedTask) → Among t tasks → member t.id ids ≡ true)
unfolding topological_order
topological_order-Built tasks u ranks =
    let (w, run, b, kept, all) =
      visit_all-Built tasks (known_parent tasks) (λ s t m n e. same_task s t tasks u m n e) ranks
        tasks (record { visited = []; ordered = [] }) (λ t m. m) empty in
    (w.ordered, w.visited, rw (run, topological_order) refl, b, all)
