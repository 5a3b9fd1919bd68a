-- ===== src/Orchestration/Order/Loop.antt =====
-- The loop of `_topological_sort`: its invariant, and what it has put in order when it ends.
use agentic_agnostic_orchest.Base.Int.{ℤ, pos}
use agentic_agnostic_orchest.Base.{
  ℕ, zero, suc, ◌+◌, ◌≡◌, ◌≤◌, ◌<◌, refl, ap, ◌∙◌, String, true, false, ◌⊎◌, inl, inr, some, List,
  [], ◌∷◌, ◌++◌, length, length-append, Dict, contains, eq_refl, arith, count, member, missing,
  missing_seen, IsWithin, IsUnique, counts-IsDistinct, distinct_fit, count_positive, count-append,
  missing_nothing,
}
use agentic_agnostic_orchest.Orchestration.Order.{degree, edges, Frontier, relax, Drained, drain}
use agentic_agnostic_orchest.Orchestration.Order.Queue.{Relaxed, relax-Relaxed}

-- Each name depends on names that stand before it or in `seen`.
abbrev pub IsOrdered : (String → List String) → List String → List String → Type 0
IsOrdered deps seen [] = Unit
IsOrdered deps seen (v ∷ vs) = IsWithin (deps v) seen × IsOrdered deps (v ∷ seen) vs

-- `back` put before `seen` in reverse
abbrev pub onto : List String → List String → List String
onto seen [] = seen
onto seen (v ∷ vs) = onto (v ∷ seen) vs

pub member-onto :
    (x : String) (seen vs : List String)
    → member x (onto seen vs) ≡ true
    → (member x vs ≡ true) ⊎ (member x seen ≡ true)
member-onto x seen [] m = inr m
member-onto x seen (v ∷ vs) m = elim (member-onto x (v ∷ seen) vs m) [
  | inl later ↦ inl (ground arith)
  | inr here ↦ ground arith
]

pub length-onto : (seen vs : List String) → length (onto seen vs) ≡ length seen + length vs
length-onto seen [] = omega arith
length-onto seen (v ∷ vs) = omega (arith, length-onto (v ∷ seen) vs)

pub count-onto :
    (x : String) (seen vs : List String) → count x (onto seen vs) ≡ count x seen + count x vs
count-onto x seen [] = omega arith
count-onto x seen (v ∷ vs) = ground (arith, count-onto x (v ∷ seen) vs)

module _ (ids : List String) (deps : String → List String) (graph : Dict (List String)) where
  -- With `ordered` before it in `done`, the loop has this queue and these degrees.
  pub record Loop (ordered queue : List String) (in_degree : Dict ℤ) : Type 0 where
    pub once : (v : String) → count v queue + count v ordered ≤ 1
    pub degrees : (v : String) → degree in_degree v ≡ pos (missing ordered (deps v))
    pub free :
        (v : String)
        → 0 < count v queue + count v ordered
        → (missing ordered (deps v) ≡ 0) × (member v ids ≡ true)
    pub waiting :
        (v : String)
        → member v ids ≡ true
        → missing ordered (deps v) ≡ 0
        → 0 < count v queue + count v ordered
    pub keys : (v : String) → member v ids ≡ true → contains in_degree v ≡ true
    pub unique : IsUnique in_degree

  -- What the loop put in order after `ordered`, when its queue is empty.
  pub record Ends (ordered : List String) (d : Drained) : Type 0 where
    pub order : IsOrdered deps ordered d.ordered
    pub last : Loop (onto ordered d.ordered) [] d.in_degree

  module _ (targets : (d v : String) → count v (edges graph d) ≡ count d (deps v))
      (declared : (v d : String) → 0 < count d (deps v) → member v ids ≡ true) where
    head_is_new :
        (sid : String) (ordered queue : List String) (in_degree : Dict ℤ)
        → Loop ordered (sid ∷ queue) in_degree
        → member sid ordered ≡ false
    head_is_new sid ordered queue in_degree l =
        ground (arith, l.once sid, eq_refl sid, count_positive sid ordered)

    relaxed :
        (sid : String) (ordered queue : List String) (in_degree : Dict ℤ)
        → Loop ordered (sid ∷ queue) in_degree
        → Relaxed
            (λ v. missing (sid ∷ ordered) (deps v))
            (edges graph sid)
            (record { queue = queue; in_degree = in_degree })
            (relax (edges graph sid) (record { queue = queue; in_degree = in_degree }))
    relaxed sid ordered queue in_degree l =
        relax-Relaxed (λ v. missing (sid ∷ ordered) (deps v)) (edges graph sid) _
          (λ v.
            l.degrees v
            ∙ ap pos (
                omega (
                  arith,
                  targets sid v,
                  missing_seen sid ordered (deps v) (head_is_new sid ordered queue in_degree l),
                )))

    next-Loop :
        (sid : String) (ordered queue : List String) (in_degree : Dict ℤ)
        → Loop ordered (sid ∷ queue) in_degree
        → (f : Frontier)
        → Relaxed
            (λ v. missing (sid ∷ ordered) (deps v))
            (edges graph sid)
            (record { queue = queue; in_degree = in_degree })
            f
        → Loop (sid ∷ ordered) f.queue f.in_degree
    next-Loop sid ordered queue in_degree l f r =
        let new = head_is_new sid ordered queue in_degree l in
        let left : (v : String)
            → missing (sid ∷ ordered) (deps v) + count v (edges graph sid)
              ≡ missing ordered (deps v) =
          λ v. omega (arith, targets sid v, missing_seen sid ordered (deps v) new) in
        record {
          once = λ v. ground (arith, r.queued v, left v, l.once v, l.free v);
          degrees = r.degrees;
          free = λ v h. ground (arith, r.queued v, left v, l.free v, declared v sid, targets sid v);
          waiting = λ v m h. ground (arith, r.queued v, left v, l.waiting v m);
          keys = λ v m. r.keys v (l.keys v m);
          unique = r.unique l.unique;
        }

    pub queue_fits :
        (ordered queue : List String) (in_degree : Dict ℤ)
        → Loop ordered queue in_degree
        → length queue + length ordered ≤ length ids
    queue_fits ordered queue in_degree l =
        let fit =
          distinct_fit (queue ++ ordered) ids
            (counts-IsDistinct (queue ++ ordered)
              (λ v. omega (arith, count-append v queue ordered, l.once v)))
            (λ v m.
              (l.free v (
                omega (
                  arith,
                  count-append v queue ordered,
                  count_positive v (queue ++ ordered) m,
                ))).1) in
        omega (arith, fit, length-append queue ordered)

    -- As much fuel as ids are not in order yet is enough.
    pub drain-Ends :
        (fuel : ℕ) (ordered queue : List String) (in_degree : Dict ℤ)
        → Loop ordered queue in_degree
        → length ids ≤ fuel + length ordered
        → (d : Drained) × (drain graph fuel queue in_degree ≡ some d) × Ends ordered d
    unfolding drain
    drain-Ends fuel ordered [] in_degree l enough = (_, refl, record { order = tt; last = l })
    drain-Ends zero ordered (sid ∷ queue) in_degree l enough =
        absurd (omega (arith, queue_fits ordered (sid ∷ queue) in_degree l))
    drain-Ends (suc fuel) ordered (sid ∷ queue) in_degree l enough =
        let f = relax (edges graph sid) (record { queue = queue; in_degree = in_degree }) in
        let (d, e, r) =
          drain-Ends fuel (sid ∷ ordered) f.queue f.in_degree
            (next-Loop sid ordered queue in_degree l f (relaxed sid ordered queue in_degree l))
            (omega arith) in
        (
          record { ordered = sid ∷ d.ordered; in_degree = d.in_degree },
          rw e refl,
          record {
            order = (
              λ x m.
                  missing_nothing ordered (deps sid) x (l.free sid (ground (arith, eq_refl sid))).0
                    m,
              r.order,
            );
            last = r.last;
          },
        )
