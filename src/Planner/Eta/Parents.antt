-- ===== src/Planner/Eta/Parents.antt =====
-- The answer of the recursion over the parents of a task.
use agentic_agnostic_orchest.Base.{
  IsDistinct, ◌∙◌, sym, ℕ, suc, ◌≤◌, ◌<◌, ◌≡◌, refl, ap, subst, String, true, Option, none, some,
  List, [], ◌∷◌, map, length, max, Dict, get, Among, arith, leb, Bool-cases, Option-cases, inl, inr,
  ◌⊎◌, member, IsWithin, ◌==◌, eq_iff, eq_refl,
}
use agentic_agnostic_orchest.Planner.Eta.{PlannedTask, Answer, over_parents}
use agentic_agnostic_orchest.Planner.Eta.Chains.{Chain, IsLongest, HasRanks}

abbrev pub ids_of : List PlannedTask → List String
ids_of tasks = map (λ t. t.id) tasks

pub length-ids : (tasks : List PlannedTask) → length (ids_of tasks) ≡ length tasks
length-ids [] = refl
length-ids (t ∷ tasks) = ap suc (length-ids tasks)

pub member-ids :
    (t : PlannedTask) (tasks : List PlannedTask) → Among t tasks → member t.id (ids_of tasks) ≡ true
member-ids t [] m = absurd m
member-ids t (s ∷ tasks) (inl e) = ground (arith, eq_refl s.id, e)
member-ids t (s ∷ tasks) (inr m) = ground (arith, member-ids t tasks m)

pub same_task :
    (s t : PlannedTask) (tasks : List PlannedTask)
    → IsDistinct (ids_of tasks)
    → Among s tasks
    → Among t tasks
    → s.id ≡ t.id
    → s ≡ t
same_task s t [] u m n e = absurd m
same_task s t (x ∷ tasks) u (inl m) (inl n) e = m ∙ sym n
same_task s t (x ∷ tasks) u (inl m) (inr n) e = absurd (
    cc (
      subst (λ z. member z (ids_of tasks) ≡ true) (sym e ∙ ap (λ y. y.id) m) (member-ids t tasks n),
      u.0,
    ))
same_task s t (x ∷ tasks) u (inr m) (inl n) e = absurd (
    cc (
      subst (λ z. member z (ids_of tasks) ≡ true) (e ∙ ap (λ y. y.id) n) (member-ids s tasks m),
      u.0,
    ))
same_task s t (x ∷ tasks) u (inr m) (inr n) e = same_task s t tasks u.1 m n e

some_task : (a b : PlannedTask) → some a ≡ some b → a ≡ b
some_task a b h = cc h

module _ (tasks : List PlannedTask) (parent : String → Option PlannedTask)
    (same : (s t : PlannedTask) → Among s tasks → Among t tasks → s.id ≡ t.id → s ≡ t)
    (ranks : HasRanks tasks parent) where
  -- What the memo holds is right.
  abbrev pub MemoHolds : Dict ℕ → Type 0
  MemoHolds memo =
      (t : PlannedTask) → Among t tasks → (d : ℕ) → get memo t.id ≡ some d → IsLongest parent t d

  pub record IsRight (t : PlannedTask) (a : Answer) : Type 0 where
    pub longest : IsLongest parent t a.depth
    pub memo : MemoHolds a.memo

  -- The answer over some dependencies
  pub record IsDeepest (deps : List String) (deepest : ℕ) (a : Answer) : Type 0 where
    pub least : deepest ≤ a.depth
    pub reached :
        (a.depth ≡ deepest)
        ⊎ ((dependency : String) × (p : PlannedTask) × (member dependency deps ≡ true)
            × (parent dependency ≡ some p)
            × Chain parent p a.depth)
    pub bound :
        (dependency : String) (p : PlannedTask)
        → member dependency deps ≡ true
        → parent dependency ≡ some p
        → (n : ℕ) → Chain parent p n
        → n ≤ a.depth
    pub memo : MemoHolds a.memo

  skipped :
      (d : String) (deps : List String) (deepest : ℕ) (a : Answer)
      → parent d ≡ none
      → IsDeepest deps deepest a
      → IsDeepest (d ∷ deps) deepest a
  skipped d deps deepest a e r = record {
    least = r.least;
    reached = elim r.reached [
      | inl q ↦ inl q
      | inr (x, p, m, f, c) ↦ inr (x, p, ground (arith, m), f, c)
    ];
    bound = λ x p m f n c. elim (Bool-cases (d == x)) [
      | inl here ↦ absurd (cc (subst (λ z. parent z ≡ none) ((eq_iff d x).0 here) e, f))
      | inr later ↦ r.bound x p (ground (arith, m, later)) f n c
    ];
    memo = r.memo;
  }

  deeper :
      (d : String) (p : PlannedTask) (deps : List String) (deepest : ℕ) (b a : Answer)
      → parent d ≡ some p
      → IsRight p b
      → IsDeepest deps (max deepest b.depth) a
      → IsDeepest (d ∷ deps) deepest a
  deeper d p deps deepest b a e right r = record {
    least = omega (arith, r.least);
    reached = elim r.reached [
      | inr (x, q, m, f, c) ↦ inr (x, q, ground (arith, m), f, c)
      | inl k ↦ elim (Bool-cases (leb b.depth deepest)) [
        | inl old ↦ inl (ground (arith, k, old))
        | inr new ↦ inr (
          d,
          p,
          ground (arith, eq_refl d),
          e,
          subst (Chain parent p) (ground (arith, k, new)) right.longest.reached,
        )
      ]
    ];
    bound = λ x q m f n c. elim (Bool-cases (d == x)) [
      | inl here ↦
          let own : p ≡ q = some_task p q (sym e ∙ ap parent ((eq_iff d x).0 here) ∙ f) in
          let fits : n ≤ b.depth =
            right.longest.bound n (subst (λ z. Chain parent z n) (sym own) c) in
          omega (arith, r.least, fits)
      | inr later ↦ r.bound x q (ground (arith, m, later)) f n c
    ];
    memo = r.memo;
  }

  module _ (t : PlannedTask) (among : Among t tasks) (visit : PlannedTask → Dict ℕ → Option Answer)
      (visits : (p : PlannedTask) (memo : Dict ℕ)
        → Among p tasks
        → ranks.rank p < ranks.rank t
        → MemoHolds memo
        → (a : Answer) × (visit p memo ≡ some a) × IsRight p a) where
    pub over_parents-IsDeepest :
        (deps : List String) (deepest : ℕ) (memo : Dict ℕ)
        → IsWithin deps t.depends_on
        → MemoHolds memo
        → (a : Answer) × (over_parents visit parent deps deepest memo ≡ some a)
          × IsDeepest deps deepest a
    unfolding over_parents
    over_parents-IsDeepest [] deepest memo w h = (
      record { depth = deepest; memo = memo },
      refl,
      record {
        least = omega arith;
        reached = inl refl;
        bound = λ dependency p m. absurd (cc m);
        memo = h;
      },
    )
    over_parents-IsDeepest (d ∷ deps) deepest memo w h = elim (Option-cases (parent d)) [
      | inl e ↦
          let (a, run, r) =
            over_parents-IsDeepest deps deepest memo (λ x m. w x (ground (arith, m))) h in
          (a, rw (e, over_parents) run, skipped d deps deepest a e r)
      | inr (p, e) ↦
          let (known, lt) = ranks.lower t p d among (w d (ground (arith, eq_refl d))) e in
          let (b, seen, right) = visits p memo known lt h in
          let (a, run, r) =
            over_parents-IsDeepest deps (max deepest b.depth) b.memo
              (λ x m. w x (ground (arith, m))) right.memo in
          (a, rw (e, over_parents, seen) run, deeper d p deps deepest b a e right r)
    ]
