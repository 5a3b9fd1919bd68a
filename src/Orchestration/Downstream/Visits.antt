-- ===== src/Orchestration/Downstream/Visits.antt =====
-- The loop of `_downstream_of` over the children of an id.
use agentic_agnostic_orchest.Base.{
  ◌+◌, ◌≡◌, inl, inr, refl, String, true, false, List, [], ◌∷◌, length, ◌==◌, eq_iff, arith,
  Bool-cases, member, IsDistinct, ◌||◌,
}
use agentic_agnostic_orchest.Orchestration.Downstream.{Search, visit}

-- `t` is `s` after the children `xs`: the new ones stand in both lists.
pub record Visited (xs : List String) (s t : Search) : Type 0 where
  pub known : (v : String) → member v t.downstream_ids ≡ (member v s.downstream_ids || member v xs)
  pub kept : (v : String) → member v s.frontier ≡ true → member v t.frontier ≡ true
  pub new :
      (v : String)
      → member v t.downstream_ids ≡ true
      → member v s.downstream_ids ≡ false
      → member v t.frontier ≡ true
  pub only :
      (v : String)
      → member v t.frontier ≡ true
      → member v s.frontier ≡ false
      → member v t.downstream_ids ≡ true
  pub distinct : IsDistinct s.downstream_ids → IsDistinct t.downstream_ids
  pub balance :
      length t.downstream_ids + length s.frontier ≡ length s.downstream_ids + length t.frontier

pub visit-Visited : (xs : List String) (s : Search) → Visited xs s (visit xs s)
unfolding visit
visit-Visited [] s = record {
  known = λ v. ground arith;
  kept = λ v h. h;
  new = λ v h k. absurd (cc (h, k));
  only = λ v h k. absurd (cc (h, k));
  distinct = λ d. d;
  balance = refl;
}
visit-Visited (child ∷ rest) s = elim (Bool-cases (member child s.downstream_ids)) [
  | inl old ↦
      let r = visit-Visited rest s in
      rw old (record {
        known = λ v. ground (arith, r.known v, eq_iff child v);
        kept = r.kept;
        new = r.new;
        only = r.only;
        distinct = r.distinct;
        balance = r.balance;
      })
  | inr fresh ↦
      let s1 : Search = record {
        downstream_ids = child ∷ s.downstream_ids;
        frontier = child ∷ s.frontier;
      } in
      let r = visit-Visited rest s1 in
      rw fresh (record {
        known = λ v. ground (arith, r.known v);
        kept = λ v h. r.kept v (ground arith);
        new = λ v h k. elim (Bool-cases (child == v)) [
          | inl same ↦ r.kept v (ground arith)
          | inr other ↦ r.new v h (ground arith)
        ];
        only = λ v h k. elim (Bool-cases (child == v)) [
          | inl same ↦ ground (arith, r.known v)
          | inr other ↦ r.only v h (ground arith)
        ];
        distinct = λ d. r.distinct (fresh, d);
        balance = omega (arith, r.balance);
      })
]
