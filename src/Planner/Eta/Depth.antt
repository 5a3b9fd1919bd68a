-- ===== src/Planner/Eta/Depth.antt =====
-- `critical_path_depth` is the length of the longest chain.
use agentic_agnostic_orchest.Base.{
  ℕ, zero, suc, ◌+◌, ◌≤◌, ◌≡◌, refl, sym, subst, String, Option, some, List, [], ◌∷◌, length, max,
  Dict, get, put, get-put, Among, arith, leb, Bool-cases, Option-cases, inl, inr, member,
  IsDistinct, distinct_fit, ◌==◌, eq_iff,
}
use agentic_agnostic_orchest.Planner.Eta.{
  PlannedTask, Answer, remember, depth_from, depths, greatest, depths_of, critical_path_depth,
  parent_of,
}
use agentic_agnostic_orchest.Planner.Eta.Chains.{
  Chain, single, link, IsLongest, HasRanks, IsGreatest,
}
use agentic_agnostic_orchest.Planner.Eta.Above.{IsAbove, below, top}
use agentic_agnostic_orchest.Planner.Eta.Parents.{
  same_task, ids_of, length-ids, MemoHolds, IsRight, IsDeepest, over_parents-IsDeepest,
}

module _ (tasks : List PlannedTask) (parent : String → Option PlannedTask)
    (same : (s t : PlannedTask) → Among s tasks → Among t tasks → s.id ≡ t.id → s ≡ t)
    (ranks : HasRanks tasks parent) where
  remembered :
      (t : PlannedTask) (d : ℕ) (memo : Dict ℕ)
      → Among t tasks
      → IsLongest parent t d
      → MemoHolds tasks parent same ranks memo
      → MemoHolds tasks parent same ranks (put memo t.id d)
  remembered t d memo among l h s m c e = elim (Bool-cases (t.id == s.id)) [
    | inl own ↦
        let here : t ≡ s = same t s among m ((eq_iff t.id s.id).0 own) in
        let now : d ≡ c = ground (arith, e, get-put memo t.id s.id d, own) in
        subst (λ z. IsLongest parent z c) here (subst (IsLongest parent t) now l)
    | inr other ↦ h s m c (ground (arith, e, get-put memo t.id s.id d, other))
  ]

  one_more :
      (t : PlannedTask) (a : Answer)
      → Among t tasks
      → IsDeepest tasks parent same ranks t.depends_on 0 a
      → IsRight tasks parent same ranks t
          (record { depth = suc a.depth; memo = put a.memo t.id (suc a.depth) })
  one_more t a among r = record {
    longest = longest;
    memo = remembered t (suc a.depth) a.memo among longest r.memo;
  }
    where
      bounded : (n : ℕ) → Chain parent t n → n ≤ suc a.depth
      bounded n (single _) = omega arith
      bounded n (link _ p dependency k m e c) = omega (arith, r.bound dependency p m e k c)

      longest : IsLongest parent t (suc a.depth)
      longest = record {
        reached = elim r.reached [
          | inl q ↦ subst (λ n. Chain parent t (suc n)) (sym q) (single t)
          | inr (dependency, p, m, e, c) ↦ link t p dependency a.depth m e c
        ];
        bound = bounded;
      }

  nothing_longest : IsGreatest parent [] 0
  nothing_longest = record { bound = λ t m. absurd m; reached = inl (refl, refl) }

  with_first :
      (t : PlannedTask) (todo : List PlannedTask) (a : Answer) (d : ℕ)
      → IsRight tasks parent same ranks t a
      → IsGreatest parent todo d
      → IsGreatest parent (t ∷ todo) (max a.depth d)
  with_first t todo a d right g = record {
    bound = λ s m n c. elim m [
      | inl e ↦
          let fits : n ≤ a.depth = right.longest.bound n (subst (λ z. Chain parent z n) e c) in
          omega (arith, fits)
      | inr later ↦ omega (arith, g.bound s later n c)
    ];
    reached = elim (Bool-cases (leb d a.depth)) [
      | inl own ↦
          inr (t, inl refl, subst (Chain parent t) (ground (arith, own)) right.longest.reached)
      | inr more ↦ elim g.reached [
        | inl (e, z) ↦ absurd (ground (arith, z, more))
        | inr (s, m, c) ↦ inr (s, inr m, subst (Chain parent s) (ground (arith, more)) c)
      ]
    ];
  }

  module _ (cut : ℕ) where
    depth_from-IsRight :
        (fuel : ℕ) (visiting : List String) (t : PlannedTask) (memo : Dict ℕ)
        → Among t tasks
        → IsAbove tasks parent same ranks t visiting
        → MemoHolds tasks parent same ranks memo
        → suc (length tasks) ≤ fuel + length visiting
        → (a : Answer) × (depth_from cut parent fuel visiting t memo ≡ some a)
          × IsRight tasks parent same ranks t a
    unfolding depth_from
    depth_from-IsRight zero visiting t memo among above h enough = absurd (
        omega (
          arith,
          enough,
          length-ids tasks,
          distinct_fit visiting (ids_of tasks) above.distinct above.within,
        ))
    depth_from-IsRight (suc fuel) visiting t memo among above h enough =
        elim (Option-cases (get memo t.id)) [
          | inr (d, e) ↦ (
            record { depth = d; memo = memo },
            rw (e, depth_from) refl,
            record { longest = h t among d e; memo = h },
          )
          | inl e ↦ elim (Bool-cases (member t.id visiting)) [
            | inl again ↦ absurd (omega (arith, above.higher t among again))
            | inr new ↦
                let (a, run, r) =
                  over_parents-IsDeepest tasks parent same ranks t among
                    (depth_from cut parent fuel (t.id ∷ visiting))
                    (λ p memo2 known lt h2.
                      depth_from-IsRight fuel (t.id ∷ visiting) p memo2 known
                        (below tasks parent same ranks t p visiting among above new lt) h2
                        (omega arith))
                    t.depends_on 0 memo (λ x m. m) h in
                (_, rw (e, depth_from, new, run, remember) refl, one_more t a among r)
          ]
        ]

    depths-right :
        (todo : List PlannedTask) (memo : Dict ℕ)
        → ((t : PlannedTask) → Among t todo → Among t tasks)
        → MemoHolds tasks parent same ranks memo
        → (ds : List ℕ) × (depths (depth_from cut parent (suc (length tasks)) []) todo memo
            ≡ some ds)
          × IsGreatest parent todo (greatest ds)
    unfolding depths greatest
    depths-right [] memo within h = ([], refl, nothing_longest)
    depths-right (t ∷ todo) memo within h =
        let (a, seen, right) =
          depth_from-IsRight (suc (length tasks)) [] t memo (within t (inl refl))
            (top tasks parent same ranks t) h (omega arith) in
        let (ds, run, g) = depths-right todo a.memo (λ s m. within s (inr m)) right.memo in
        (a.depth ∷ ds, rw (seen, depths, run) refl, with_first t todo a (greatest ds) right g)

-- For tasks with distinct ids whose dependencies have ranks, the depth is found, with as much fuel as
-- tasks and one more: it is the length of the longest chain of tasks in which each needs the next, and 0
-- if there is no task.
pub critical_path_depth-IsGreatest :
    (tasks : List PlannedTask)
    → IsDistinct (ids_of tasks)
    → HasRanks tasks (parent_of tasks)
    → (d : ℕ) × (critical_path_depth tasks ≡ some d) × IsGreatest (parent_of tasks) tasks d
unfolding critical_path_depth depths_of get
critical_path_depth-IsGreatest tasks u ranks =
    let (ds, run, g) =
      depths-right tasks (parent_of tasks) (λ s t m n e. same_task s t tasks u m n e) ranks 1 tasks
        [] (λ t m. m) (λ t m d e. absurd (cc e)) in
    (greatest ds, rw (run, critical_path_depth, depths_of) refl, g)
