-- ===== src/Orchestration/Order/Linking.antt =====
-- The loop of `_topological_sort` that counts the dependencies and lists the successors.
use agentic_agnostic_orchest.Base.Int.{ℤ, pos, ◌+ℤ◌}
use agentic_agnostic_orchest.Base.{
  ℕ, ◌+◌, ◌≡◌, refl, ap, ◌∙◌, subst, String, true, false, ◌⊎◌, inl, inr, List, [], ◌∷◌, ◌++◌,
  length, if◌then◌else◌, Dict, put, contains, ◌==◌, eq_iff, eq_refl, get-put, arith, Bool-cases,
  IsUnique, put-IsUnique, count, count-append, member, IsDistinct,
}
use agentic_agnostic_orchest.Orchestration.Workflow.{StepDefinition, step_ids}
use agentic_agnostic_orchest.Orchestration.Order.{
  degree, edges, Links, Linked, linked, unknown, add_link, link_step, link_steps,
}

-- What the step of an id depends on
unfoldable pub deps_of : List StepDefinition → String → List String
deps_of [] v = []
deps_of (s ∷ steps) v = if s.id == v then s.depends_on else deps_of steps v

pub deps_of-absent :
    (steps : List StepDefinition) (v : String)
    → member v (step_ids steps) ≡ false
    → deps_of steps v ≡ []
unfolding deps_of step_ids
deps_of-absent [] v h = refl
deps_of-absent (s ∷ steps) v h = ground (arith, deps_of-absent steps v)

pub degree-put :
    (d : Dict ℤ) (k v : String) (n : ℤ) → degree (put d k n) v ≡ (if k == v then n else degree d v)
unfolding degree
degree-put d k v n = ground (arith, get-put d k v n)

edges-put :
    (g : Dict (List String)) (k v : String) (xs : List String)
    → edges (put g k xs) v ≡ (if k == v then xs else edges g v)
unfolding edges
edges-put g k v xs = ground (arith, get-put g k v xs)

pub pos_add : (n m : ℕ) → pos n +ℤ pos m ≡ pos (n + m)
unfolding ◌+ℤ◌
pos_add n m = ground arith

contains-put :
    (d : Dict ℤ) (k v : String) (n : ℤ)
    → contains (put d k n) v ≡ (if k == v then true else contains d v)
unfolding contains
contains-put d k v n = ground (arith, get-put d k v n)

-- The links `l'` are those of `l` with more: to each `v` as many as `n v`, from each `d` to `v` as many
-- as `e d v`, under the same keys.
pub record Grown (l l' : Links) (n : String → ℕ) (e : String → String → ℕ) : Type 0 where
  pub degrees :
      (v : String) (a : ℕ) → degree l.in_degree v ≡ pos a → degree l'.in_degree v ≡ pos (a + n v)
  pub targets : (d v : String) → count v (edges l'.graph d) ≡ count v (edges l.graph d) + e d v
  pub keys : (v : String) → contains l'.in_degree v ≡ contains l.in_degree v
  pub unique : IsUnique l.in_degree → IsUnique l'.in_degree

same-Grown :
    (l : Links) (n : String → ℕ) (e : String → String → ℕ)
    → ((v : String) → n v ≡ 0)
    → ((d v : String) → e d v ≡ 0)
    → Grown l l n e
same-Grown l n e n0 e0 = record {
  degrees = λ v a h. h ∙ ap pos (omega (arith, n0 v));
  targets = λ d v. omega (arith, e0 d v);
  keys = λ v. refl;
  unique = λ u. u;
}

then-Grown :
    (l l1 l2 : Links) (n1 n2 n : String → ℕ) (e1 e2 e : String → String → ℕ)
    → Grown l l1 n1 e1
    → Grown l1 l2 n2 e2
    → ((v : String) → n v ≡ n1 v + n2 v)
    → ((d v : String) → e d v ≡ e1 d v + e2 d v)
    → Grown l l2 n e
then-Grown l l1 l2 n1 n2 n e1 e2 e g h sum_n sum_e = record {
  degrees = λ v a p. h.degrees v (a + n1 v) (g.degrees v a p) ∙ ap pos (omega (arith, sum_n v));
  targets = λ d v. omega (arith, g.targets d v, h.targets d v, sum_e d v);
  keys = λ v. h.keys v ∙ g.keys v;
  unique = λ u. h.unique (g.unique u);
}

-- One link from `dep` to `id`
add_link-Grown :
    (id dep : String) (l : Links)
    → contains l.in_degree id ≡ true
    → Grown l
        (add_link id dep l)
        (λ v. if id == v then 1 else 0)
        (λ d v. if id == v then count d (dep ∷ []) else 0)
unfolding add_link
add_link-Grown id dep l key = record {
  degrees = λ v a h. elim (Bool-cases (id == v)) [
    | inl same ↦
        rw
          (
            degree-put l.in_degree id v (degree l.in_degree id +ℤ pos 1),
            same,
            (eq_iff id v).0 same,
            h,
          )
          (pos_add a 1)
    | inr other ↦
        rw (degree-put l.in_degree id v (degree l.in_degree id +ℤ pos 1), other, h)
          (ap pos (omega arith))
  ];
  targets = λ d v. ground (
    arith,
    edges-put l.graph dep d (edges l.graph dep ++ (id ∷ [])),
    eq_iff dep d,
    count-append v (edges l.graph dep) (id ∷ []),
  );
  keys = λ v.
      ground
        (arith, contains-put l.in_degree id v (degree l.in_degree id +ℤ pos 1), eq_iff id v, key);
  unique = λ u. put-IsUnique l.in_degree id (degree l.in_degree id +ℤ pos 1) u;
}

counted : String → List String → String → ℕ
counted id deps v = if id == v then length deps else 0

aimed : String → List String → String → String → ℕ
aimed id deps d v = if id == v then count d deps else 0

linked_injective : (l m : Links) → linked l ≡ linked m → l ≡ m
linked_injective l m h = cc h

pub linked_cases :
    (r : Linked)
    → ((l : Links) × (r ≡ linked l)) ⊎ ((id : String) × (dep : String) × (r ≡ unknown id dep))
linked_cases (linked l) = inl (l, refl)
linked_cases (unknown id dep) = inr (id, dep, refl)

link_step-Grown :
    (by_id : Dict StepDefinition) (id : String) (deps : List String) (l l' : Links)
    → contains l.in_degree id ≡ true
    → link_step by_id id deps l ≡ linked l'
    → Grown l l' (counted id deps) (aimed id deps)
      × ((d : String) → member d deps ≡ true → contains by_id d ≡ true)
unfolding link_step counted aimed
link_step-Grown by_id id [] l l' key h = (
  subst (λ m. Grown l m (counted id []) (aimed id [])) (linked_injective l l' h)
      (same-Grown l (counted id []) (aimed id []) (λ v. ground arith) (λ d v. ground arith)),
  λ d m. absurd (cc m),
)
link_step-Grown by_id id (dep ∷ deps) l l' key h = elim (Bool-cases (contains by_id dep)) [
  | inr missed ↦ absurd (cc (rw missed at h))
  | inl met ↦
      let one = add_link-Grown id dep l key in
      let (more, all_met) =
        link_step-Grown by_id id deps (add_link id dep l) l' (one.keys id ∙ key) (rw met at h) in
      (
        then-Grown l (add_link id dep l) l' _ (counted id deps) (counted id (dep ∷ deps)) _
            (aimed id deps) (aimed id (dep ∷ deps)) one more (λ v. ground arith)
            (λ d v. ground arith),
        λ d m. elim (Bool-cases (dep == d)) [
          | inl same ↦ subst (λ z. contains by_id z ≡ true) ((eq_iff dep d).0 same) met
          | inr other ↦ all_met d (ground arith)
        ],
      )
]

-- The dependencies are all known, and each counts and is a target.
pub link_steps-Grown :
    (by_id : Dict StepDefinition) (steps : List StepDefinition) (l l' : Links)
    → IsDistinct (step_ids steps)
    → ((v : String) → member v (step_ids steps) ≡ true → contains l.in_degree v ≡ true)
    → link_steps by_id steps l ≡ linked l'
    → Grown l l' (λ v. length (deps_of steps v)) (λ d v. count d (deps_of steps v))
      × ((v d : String) → member d (deps_of steps v) ≡ true → contains by_id d ≡ true)
unfolding link_steps deps_of step_ids counted aimed
link_steps-Grown by_id [] l l' u keys h = (
  subst (λ m. Grown l m (λ v. 0) (λ d v. 0)) (linked_injective l l' h)
      (same-Grown l (λ v. 0) (λ d v. 0) (λ v. refl) (λ d v. refl)),
  λ v d m. absurd (cc m),
)
link_steps-Grown by_id (s ∷ steps) l l' (absent, u) keys h =
    elim (linked_cases (link_step by_id s.id s.depends_on l)) [
      | inr (id, dep, e) ↦ absurd (cc (rw (e, link_steps) at h))
      | inl (l1, e) ↦
          let (one, known) =
            link_step-Grown by_id s.id s.depends_on l l1 (keys s.id (ground (arith, eq_refl s.id)))
              e in
          let (more, all_known) =
            link_steps-Grown by_id steps l1 l' u (λ v m. one.keys v ∙ keys v (ground arith))
              (rw (e, link_steps) at h) in
          let none_here : (v : String) → (s.id == v) ≡ true → deps_of steps v ≡ [] =
            λ v same. rw (← (eq_iff s.id v).0 same) (deps_of-absent steps s.id absent) in
          (
            then-Grown l l1 l' (counted s.id s.depends_on) _ _ (aimed s.id s.depends_on) _ _ one
                more (λ v. ground (arith, none_here v)) (λ d v. ground (arith, none_here v)),
            λ v d m. elim (Bool-cases (s.id == v)) [
              | inl same ↦ known d (rw same at m)
              | inr other ↦ all_known v d (rw other at m)
            ],
          )
    ]
