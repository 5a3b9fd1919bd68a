-- ===== src/Orchestration/Order/Queue.antt =====
-- The queue of `_topological_sort`: how often each id stands in it, at first and after a step's
-- successors are relaxed.
use agentic_agnostic_orchest.Base.Int.{ℤ, pos, ◌-ℤ◌}
use agentic_agnostic_orchest.Base.{
  ℕ, ◌+◌, ◌≡◌, refl, ap, ◌∙◌, subst, String, Bool, true, inl, inr, Option, none, some, List, [],
  ◌∷◌, if◌then◌else◌, Dict, get, put, contains, ◌==◌, eq_iff, eq_refl, get-put, arith, Bool-cases,
  eqb, leb, count, IsUnique, put-IsUnique, insert_by, sort_by,
}
use agentic_agnostic_orchest.Orchestration.Order.Linking.{degree-put}
use agentic_agnostic_orchest.Orchestration.Workflow.{StepDefinition}
use agentic_agnostic_orchest.Orchestration.Order.{
  degree, is_zero, ids_where, declared_at, insert_before, Frontier, relax_one, relax, first_queue,
}

count-insert_by :
    (leq : String → String → Bool) (v x : String) (xs : List String)
    → count v (insert_by leq x xs) ≡ count v (x ∷ xs)
unfolding insert_by
count-insert_by leq v x [] = refl
count-insert_by leq v x (y ∷ ys) = ground (arith, count-insert_by leq v x ys)

count-sort_by :
    (leq : String → String → Bool) (v : String) (xs : List String)
    → count v (sort_by leq xs) ≡ count v xs
unfolding sort_by
count-sort_by leq v [] = refl
count-sort_by leq v (x ∷ xs) =
    ground (arith, count-sort_by leq v xs, count-insert_by leq v x (sort_by leq xs))

abbrev pub has_degree : (ℤ → Bool) → Option ℤ → ℕ
has_degree p none = 0
has_degree p (some n) = if p n then 1 else 0

ids_where-missed :
    (p : ℤ → Bool) (d : Dict ℤ) (v : String) → get d v ≡ none → count v (ids_where p d) ≡ 0
unfolding ids_where get
ids_where-missed p [] v h = refl
ids_where-missed p ((k, n) ∷ d) v h = ground (arith, ids_where-missed p d v)

-- An id stands once among those with a property of the degree, if its degree has it.
pub count-ids_where :
    (p : ℤ → Bool) (d : Dict ℤ) (v : String)
    → IsUnique d
    → count v (ids_where p d) ≡ has_degree p (get d v)
unfolding ids_where get
count-ids_where p [] v u = refl
count-ids_where p ((k, n) ∷ d) v (new, u) =
    ground (arith, count-ids_where p d v u, ids_where-missed p d k new, eq_iff k v)

-- The ids of degree 0 stand once in the first queue, no other does.
pub count-first_queue :
    (steps : List StepDefinition) (d : Dict ℤ) (v : String)
    → IsUnique d
    → count v (first_queue steps d)
      ≡ (if contains d v then if is_zero (degree d v) then 1 else 0 else 0)
unfolding first_queue contains degree
count-first_queue steps d v u = ground (
  arith,
  count-sort_by (λ a b. leb (declared_at steps a) (declared_at steps b)) v (ids_where is_zero d),
  count-ids_where is_zero d v u,
)

count-insert_before :
    (v x : String) (queue : List String) → count v (insert_before x queue) ≡ count v (x ∷ queue)
unfolding insert_before
count-insert_before v x [] = refl
count-insert_before v x (s ∷ queue) = ground (arith, count-insert_before v x queue)

-- 1 if `v` is relaxed and nothing is left of its degree
abbrev pub joins : ℕ → ℕ → ℕ
joins left relaxed = if eqb left 0 then if eqb relaxed 0 then 0 else 1 else 0

take_one : (n : ℕ) → pos (n + 1) -ℤ pos 1 ≡ pos n
unfolding ◌-ℤ◌
take_one n = ground arith

-- `f'` is `f` after the successors `xs`, when each degree is what is left and what they take of it.
pub record Relaxed (left : String → ℕ) (xs : List String) (f f' : Frontier) : Type 0 where
  pub degrees : (v : String) → degree f'.in_degree v ≡ pos (left v)
  pub queued : (v : String) → count v f'.queue ≡ count v f.queue + joins (left v) (count v xs)
  pub keys : (v : String) → contains f.in_degree v ≡ true → contains f'.in_degree v ≡ true
  pub unique : IsUnique f.in_degree → IsUnique f'.in_degree

falls :
    (left : String → ℕ) (x : String) (xs : List String) (f : Frontier)
    → ((v : String) → degree f.in_degree v ≡ pos (left v + count v (x ∷ xs)))
    → degree f.in_degree x -ℤ pos 1 ≡ pos (left x + count x xs)
falls left x xs f h =
    rw (h x, eq_refl x) (ap (λ n. pos n -ℤ pos 1) (omega arith) ∙ take_one (left x + count x xs))

relax_one-degree :
    (left : String → ℕ) (x : String) (xs : List String) (f : Frontier)
    → ((v : String) → degree f.in_degree v ≡ pos (left v + count v (x ∷ xs)))
    → (v : String) → degree (relax_one x f).in_degree v ≡ pos (left v + count v xs)
unfolding relax_one
relax_one-degree left x xs f h v = elim (Bool-cases (x == v)) [
  | inl same ↦
      let e = (eq_iff x v).0 same in
      subst
        (λ z.
          degree (put f.in_degree x (degree f.in_degree x -ℤ pos 1)) z ≡ pos (left z + count z xs))
        e
        (rw (degree-put f.in_degree x x (degree f.in_degree x -ℤ pos 1), eq_refl x)
          (falls left x xs f h))
  | inr other ↦
      rw (degree-put f.in_degree x v (degree f.in_degree x -ℤ pos 1), other)
        (h v ∙ ap pos (ground (arith, other)))
]

relax_one-queue :
    (left : String → ℕ) (x : String) (xs : List String) (f : Frontier)
    → ((v : String) → degree f.in_degree v ≡ pos (left v + count v (x ∷ xs)))
    → (v : String)
    → count v (relax_one x f).queue + joins (left v) (count v xs)
      ≡ count v f.queue + joins (left v) (count v (x ∷ xs))
unfolding relax_one
relax_one-queue left x xs f h v =
    rw (falls left x xs f h) (ground (arith, count-insert_before v x f.queue, eq_iff x v))

relax_one-keys :
    (x : String) (f : Frontier) (v : String)
    → contains f.in_degree v ≡ true
    → contains (relax_one x f).in_degree v ≡ true
unfolding relax_one contains
relax_one-keys x f v h = ground (arith, get-put f.in_degree x v (degree f.in_degree x -ℤ pos 1), h)

relax_one-IsUnique :
    (x : String) (f : Frontier) → IsUnique f.in_degree → IsUnique (relax_one x f).in_degree
unfolding relax_one
relax_one-IsUnique x f u = put-IsUnique f.in_degree x (degree f.in_degree x -ℤ pos 1) u

pub relax-Relaxed :
    (left : String → ℕ) (xs : List String) (f : Frontier)
    → ((v : String) → degree f.in_degree v ≡ pos (left v + count v xs))
    → Relaxed left xs f (relax xs f)
unfolding relax
relax-Relaxed left [] f h = record {
  degrees = λ v. h v ∙ ap pos (omega arith);
  queued = λ v. ground arith;
  keys = λ v c. c;
  unique = λ u. u;
}
relax-Relaxed left (x ∷ xs) f h =
    let rest = relax-Relaxed left xs (relax_one x f) (relax_one-degree left x xs f h) in
    record {
      degrees = rest.degrees;
      queued = λ v. omega (arith, rest.queued v, relax_one-queue left x xs f h v);
      keys = λ v c. rest.keys v (relax_one-keys x f v c);
      unique = λ u. rest.unique (relax_one-IsUnique x f u);
    }
