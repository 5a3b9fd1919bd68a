-- ===== src/Orchestration/Downstream/Found.antt =====
-- `_downstream_of` finds exactly the steps that need a step, directly or through others.
use agentic_agnostic_orchest.Base.{
  ℕ, zero, suc, ◌+◌, ◌≡◌, ◌≤◌, ◌↔◌, ◌⊎◌, inl, inr, refl, sym, subst, String, true, false, some,
  List, [], ◌∷◌, length, filter, Dict, get, Among, Among-filter, Among-filter_of, ◌==◌, eq_iff,
  eq_refl, arith, Bool-cases, member, IsDistinct, distinct_fit,
}
use agentic_agnostic_orchest.Orchestration.Workflow.{StepDefinition, step_ids}
use agentic_agnostic_orchest.Orchestration.Workflow.Ids.{member-Among, length-step_ids}
use agentic_agnostic_orchest.Orchestration.Downstream.{
  children, by_dependency, Search, visit, explore, downstream_of,
}
use agentic_agnostic_orchest.Orchestration.Downstream.Reach.{
  Needs, NeedsInTheEnd, directly, through, child-Needs, Needs-child,
}
use agentic_agnostic_orchest.Orchestration.Downstream.Visits.{Visited, visit-Visited}

module _ (start : String) (steps : List StepDefinition) where
  by_dep : Dict (List String)
  by_dep = by_dependency steps []

  -- The search has these ids and this frontier.
  record Searching (down frontier : List String) : Type 0 where
    distinct : IsDistinct down
    sound : (v : String) → member v down ≡ true → NeedsInTheEnd steps v start
    met : (v : String) → member v frontier ≡ true → (start ≡ v) ⊎ (member v down ≡ true)
    closed :
        (v c : String)
        → (start ≡ v) ⊎ (member v down ≡ true)
        → member v frontier ≡ false
        → Needs steps c v
        → member c down ≡ true

  child_reaches :
      (v c : String) (down : List String)
      → ((v : String) → member v down ≡ true → NeedsInTheEnd steps v start)
      → (start ≡ v) ⊎ (member v down ≡ true)
      → Needs steps c v
      → NeedsInTheEnd steps c start
  child_reaches v c down sound (inl e) n = directly c start (subst (Needs steps c) (sym e) n)
  child_reaches v c down sound (inr m) n = through c v start n (sound v m)

  child-Needs_start : (c d : String) → member c (children by_dep d) ≡ true → Needs steps c d
  unfolding by_dep children get
  child-Needs_start c d m = elim (child-Needs steps [] c d m) [
    | inl nothing ↦ absurd (cc nothing)
    | inr n ↦ n
  ]

  child_of :
      (current v c : String)
      → (current == v) ≡ true
      → Needs steps c v
      → member c (children by_dep current) ≡ true
  unfolding by_dep
  child_of current v c same n =
      subst (λ z. member c (children by_dep z) ≡ true) (sym ((eq_iff current v).0 same))
        (Needs-child steps [] c v n)

  Visited-Searching :
      (current : String) (down frontier : List String) (t : Search)
      → Searching down (current ∷ frontier)
      → Visited (children by_dep current) (record { downstream_ids = down; frontier = frontier }) t
      → Searching t.downstream_ids t.frontier
  Visited-Searching current down frontier t s r =
      let current_met = s.met current (ground (arith, eq_refl current)) in
      record {
        distinct = r.distinct s.distinct;
        sound = λ v m. elim (Bool-cases (member v down)) [
          | inl old ↦ s.sound v old
          | inr new ↦
              child_reaches current v down s.sound current_met
                (child-Needs_start v current (ground (arith, r.known v)))
        ];
        met = λ v m. elim (Bool-cases (member v frontier)) [
          | inl old ↦ elim (s.met v (ground (arith, old))) [
            | inl e ↦ inl e
            | inr k ↦ inr (ground (arith, r.known v, k))
          ]
          | inr new ↦ inr (r.only v m new)
        ];
        closed = λ v c h out n. elim (Bool-cases (current == v)) [
          | inl same ↦ ground (arith, r.known c, child_of current v c same n)
          | inr other ↦
              let skipped : member v (current ∷ frontier) ≡ false = ground (arith, r.kept v) in
              elim h [
                | inl e ↦ ground (arith, r.known c, s.closed v c (inl e) skipped n)
                | inr m ↦ elim (Bool-cases (member v down)) [
                  | inl old ↦ ground (arith, r.known c, s.closed v c (inr old) skipped n)
                  | inr fresh ↦ absurd (cc (r.new v m fresh, out))
                ]
              ]
        ];
      }

  Needs-declared : (c d : String) → Needs steps c d → member c (step_ids steps) ≡ true
  Needs-declared c d n =
      subst (λ z. member z (step_ids steps) ≡ true) n.named (member-Among n.step steps n.declared)

  reach_declared : (c d : String) → NeedsInTheEnd steps c d → member c (step_ids steps) ≡ true
  reach_declared c d (directly _ _ n) = Needs-declared c d n
  reach_declared c d (through _ mid _ n r) = Needs-declared c mid n

  down_fits : (down frontier : List String) → Searching down frontier → length down ≤ length steps
  down_fits down frontier s = omega (
    arith,
    length-step_ids steps,
    distinct_fit down (step_ids steps) s.distinct (λ v m. reach_declared v start (s.sound v m)),
  )

  first_search : Searching [] (start ∷ [])
  first_search = record {
    distinct = tt;
    sound = λ v m. absurd (cc m);
    met = λ v m. inl (ground (arith, eq_iff start v));
    closed = λ v c h out n. elim h [
      | inl e ↦ absurd (ground (arith, eq_iff start v, out, e))
      | inr m ↦ absurd (cc m)
    ];
  }

  -- As much fuel as ids are not found yet and wait is enough.
  explore-Searching :
      (fuel : ℕ) (down frontier : List String)
      → Searching down frontier
      → fuel + length down ≡ length steps + length frontier
      → (found : List String) × (explore by_dep fuel down frontier ≡ some found)
        × Searching found []
  unfolding explore
  explore-Searching fuel down [] s e = (down, refl, s)
  explore-Searching zero down (current ∷ frontier) s e =
      absurd (omega (arith, down_fits down (current ∷ frontier) s))
  explore-Searching (suc fuel) down (current ∷ frontier) s e =
      let start_at : Search = record { downstream_ids = down; frontier = frontier } in
      let t = visit (children by_dep current) start_at in
      let r = visit-Visited (children by_dep current) start_at in
      explore-Searching fuel t.downstream_ids t.frontier
        (Visited-Searching current down frontier t s r) (omega (arith, r.balance))

  found_all :
      (found : List String)
      → Searching found []
      → (v : String) → NeedsInTheEnd steps v start
      → member v found ≡ true
  found_all found s v r = by_way start v r refl
    where
      by_way : (d v : String) → NeedsInTheEnd steps v d → start ≡ d → member v found ≡ true
      by_way d v (directly _ _ n) e = s.closed d v (inl e) refl n
      by_way d v (through _ mid _ n r) e = s.closed mid v (inr (by_way d mid r e)) refl n

-- The search ends, and a step is found exactly if it is a step of the workflow that needs the given
-- id, directly or through other steps.
pub downstream_of-finds :
    (step_id : String) (steps : List StepDefinition)
    → (found : List StepDefinition) × (downstream_of step_id steps ≡ some found)
      × ((s : StepDefinition) → Among s found ↔ (Among s steps × NeedsInTheEnd steps s.id step_id))
unfolding downstream_of by_dep
downstream_of-finds step_id steps =
    let (found, run, s) =
      explore-Searching step_id steps (suc (length steps)) [] (step_id ∷ [])
        (first_search step_id steps) (omega arith) in
    (
      filter (λ s. member s.id found) steps,
      rw (run, downstream_of) refl,
      λ x. (
        λ m.
            let (among, h) = Among-filter (λ s. member s.id found) x steps m in
            (among, s.sound x.id h),
        λ (among, n).
            Among-filter_of (λ s. member s.id found) x steps among
              (found_all step_id steps found s x.id n),
      ),
    )
