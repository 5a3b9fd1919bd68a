-- ===== src/Acl/Engine/Roles.antt =====
-- Which roles an agent has: those of the patterns that match it.
use agentic_agnostic_orchest.Base.{
  ◌≡◌, refl, sym, ap, subst, String, Bool, true, false, ◌||◌, ◌&&◌, ◌↔◌, any, some, List, [], ◌∷◌,
  Dict, get, put, get_or, ◌==◌, if◌then◌else◌, Among, arith, eq_iff, eq_refl, Bool-cases,
  Option-cases, inl, inr, get-put, IsUnique, put-IsUnique,
}
use agentic_agnostic_orchest.Acl.Engine.{
  AclRole, AclConfig, AgentRoleMap, is_in, set_add, set_update, add_entry, add_role, add_patterns,
  build_agent_role_map, new_engine, matches, roles_in, get_roles,
}

is_in-add : (x y : String) (ys : List String) → is_in x (set_add y ys) ≡ ((y == x) || is_in x ys)
unfolding set_add is_in
is_in-add x y ys = elim (Bool-cases (is_in y ys)) [
  | inl old ↦ elim (Bool-cases (y == x)) [
    | inl same ↦ rw (old, same) (subst (λ z. is_in z ys ≡ true) ((eq_iff y x).0 same) old)
    | inr other ↦ rw (old, other) refl
  ]
  | inr new ↦ rw new refl
]

is_in-update :
    (x : String) (xs ys : List String) → is_in x (set_update xs ys) ≡ (is_in x xs || is_in x ys)
unfolding set_update is_in
is_in-update x [] ys = refl
is_in-update x (y ∷ xs) ys = ground (arith, is_in-add x y (set_update xs ys), is_in-update x xs ys)

or_true : (b : Bool) → (b || true) ≡ true
or_true b = ground arith

-- Whether an entry of the map gives agent `a` the role `n`.
module _ (fnmatchcase : String → String → Bool) where
  roles_in_holds :
      (d : Dict (List String)) (a n p : String) (names : List String)
      → get d p ≡ some names
      → is_in n names ≡ true
      → matches fnmatchcase a p ≡ true
      → is_in n (roles_in fnmatchcase d a) ≡ true
  unfolding get roles_in
  roles_in_holds [] a n p names e i m = cc
  roles_in_holds ((q, ns) ∷ d) a n p names e i m = elim (Bool-cases (q == p)) [
    | inl same ↦
        let e' : some ns ≡ some names = rw same at e in
        let here : matches fnmatchcase a q ≡ true =
          subst (λ z. matches fnmatchcase a z ≡ true) (sym ((eq_iff q p).0 same)) m in
        let ns_is : is_in n ns ≡ true = cc (e', i) in
        rw (here, is_in-update n ns (roles_in fnmatchcase d a), ns_is) refl
    | inr other ↦
        let rest = roles_in_holds d a n p names (rw other at e) i m in
        elim (Bool-cases (matches fnmatchcase a q)) [
          | inl here ↦
              rw (here, is_in-update n ns (roles_in fnmatchcase d a), rest) (or_true (is_in n ns))
          | inr away ↦ rw away rest
        ]
  ]

  pub roles_in_of :
      (d : Dict (List String)) (a n : String)
      → IsUnique d
      → is_in n (roles_in fnmatchcase d a) ≡ true
      → (p : String) × (names : List String) × (get d p ≡ some names)
        × (is_in n names ≡ true)
        × (matches fnmatchcase a p ≡ true)
  unfolding get roles_in is_in
  roles_in_of [] a n u h = absurd (cc h)
  roles_in_of ((q, ns) ∷ d) a n u h = elim (Bool-cases (matches fnmatchcase a q)) [
    | inl here ↦ elim (Bool-cases (is_in n ns)) [
      | inl held ↦ (q, ns, rw (eq_refl q) refl, held, here)
      | inr absent ↦ later (roles_in_of d a n u.1 (deeper here absent))
    ]
    | inr away ↦ later (roles_in_of d a n u.1 (rw away at h))
  ]
    where
      deeper :
          matches fnmatchcase a q ≡ true
          → is_in n ns ≡ false
          → is_in n (roles_in fnmatchcase d a) ≡ true
      deeper here absent =
          let both = is_in-update n ns (roles_in fnmatchcase d a) in
          let inside : is_in n (set_update ns (roles_in fnmatchcase d a)) ≡ true = rw here at h in
          cc (both, inside, absent)

      later :
          ((p : String) × (names : List String) × (get d p ≡ some names)
            × (is_in n names ≡ true)
            × (matches fnmatchcase a p ≡ true))
          → (p : String) × (names : List String) × (get ((q, ns) ∷ d) p ≡ some names)
            × (is_in n names ≡ true)
            × (matches fnmatchcase a p ≡ true)
      later (p, names, e, i, m) = (p, names, ground (arith, eq_iff q p, e, u.0), i, m)

-- Whether a map gives the role `n` to the pattern `p`.
abbrev pub gives : Dict (List String) → String → String → Bool
gives d p n = is_in n (get_or (get d p) [])

gives-put :
    (d : Dict (List String)) (k p n : String) (names : List String)
    → gives (put d k names) p n ≡ (if k == p then is_in n names else gives d p n)
gives-put d k p n names = rw (get-put d k p names) (ground arith)

pub gives-add_entry :
    (d : Dict (List String)) (k v p n : String)
    → gives (add_entry d k v) p n ≡ (((k == p) && (v == n)) || gives d p n)
unfolding add_entry
gives-add_entry d k v p n =
    rw (gives-put d k p n (set_add v (get_or (get d k) [])), is_in-add n v (get_or (get d k) []))
      (elim (Bool-cases (k == p)) [
        | inl same ↦
            rw same (ap (λ z. (v == n) || is_in n (get_or (get d z) [])) ((eq_iff k p).0 same))
        | inr other ↦ rw other refl
      ])

-- What the loops of `_build_agent_role_map` give.
gives-add_patterns :
    (name : String) (ps : List String) (m : AgentRoleMap) (p n : String)
    → gives (add_patterns name ps m).agent_to_roles p n
      ≡ ((is_in p ps && (name == n)) || gives m.agent_to_roles p n)
unfolding add_patterns add_role is_in
gives-add_patterns name [] m p n = refl
gives-add_patterns name (q ∷ ps) m p n = ground (
  arith,
  gives-add_patterns name ps (add_role m q name) p n,
  gives-add_entry m.agent_to_roles q name p n,
)

pub gives-build :
    (roles : List AclRole) (m : AgentRoleMap) (p n : String)
    → gives (build_agent_role_map roles m).agent_to_roles p n
      ≡ (any (λ r. is_in p r.agents && (r.name == n)) roles || gives m.agent_to_roles p n)
unfolding build_agent_role_map
gives-build [] m p n = refl
gives-build (r ∷ rest) m p n = ground (
  arith,
  gives-build rest (add_patterns r.name r.agents m) p n,
  gives-add_patterns r.name r.agents m p n,
)

add_patterns-IsUnique :
    (name : String) (ps : List String) (m : AgentRoleMap)
    → IsUnique m.agent_to_roles
    → IsUnique (add_patterns name ps m).agent_to_roles
unfolding add_patterns add_role add_entry
add_patterns-IsUnique name [] m u = u
add_patterns-IsUnique name (q ∷ ps) m u =
    add_patterns-IsUnique name ps (add_role m q name) (put-IsUnique m.agent_to_roles q _ u)

pub build-IsUnique :
    (roles : List AclRole) (m : AgentRoleMap)
    → IsUnique m.agent_to_roles
    → IsUnique (build_agent_role_map roles m).agent_to_roles
unfolding build_agent_role_map
build-IsUnique [] m u = u
build-IsUnique (r ∷ rest) m u =
    build-IsUnique rest (add_patterns r.name r.agents m) (add_patterns-IsUnique r.name r.agents m u)

pub any-Among :
    {A : Type 0} (f : A → Bool) (xs : List A)
    → any f xs ≡ true
    → (x : A) × Among x xs × (f x ≡ true)
any-Among f [] h = absurd (cc h)
any-Among f (x ∷ xs) h = elim (Bool-cases (f x)) [
  | inl here ↦ (x, inl refl, here)
  | inr away ↦ let (y, m, e) = any-Among f xs (rw away at h) in (y, inr m, e)
]

pub Among-any :
    {A : Type 0} (f : A → Bool) (xs : List A) (x : A) → Among x xs → f x ≡ true → any f xs ≡ true
Among-any f [] x m e = absurd m
Among-any f (y ∷ ys) x (inl same) e = ground (arith, ap f same, e)
Among-any f (y ∷ ys) x (inr m) e = ground (arith, Among-any f ys x m e)

module _ (fnmatchcase : String → String → Bool) where
  pub gives-roles_in :
      (d : Dict (List String)) (a n p : String)
      → gives d p n ≡ true
      → matches fnmatchcase a p ≡ true
      → is_in n (roles_in fnmatchcase d a) ≡ true
  unfolding is_in
  gives-roles_in d a n p g m = elim (Option-cases (get d p)) [
    | inl e ↦ absurd (cc (rw e at g))
    | inr (names, e) ↦ roles_in_holds fnmatchcase d a n p names e (rw e at g) m
  ]

  -- In a fresh engine a role name is among the roles of an agent exactly when the configuration
  -- has a role of that name with a pattern that matches the agent.
  pub get_roles_iff :
      (c : AclConfig) (a n : String)
      → (is_in n (get_roles fnmatchcase (new_engine c) a) ≡ true) ↔ (
          (r : AclRole) × Among r c.roles
          × (r.name ≡ n)
          × (any (λ p. matches fnmatchcase a p) r.agents ≡ true))
  unfolding get_roles new_engine is_in get
  get_roles_iff c a n = (out, back)
    where
      blank : AgentRoleMap
      blank = record { agent_to_roles = []; role_to_agents = [] }

      map_of : Dict (List String)
      map_of = (build_agent_role_map c.roles blank).agent_to_roles

      out :
          is_in n (roles_in fnmatchcase map_of a) ≡ true
          → (r : AclRole) × Among r c.roles
            × (r.name ≡ n)
            × (any (λ p. matches fnmatchcase a p) r.agents ≡ true)
      out h =
          let (p, names, e, i, m) =
            roles_in_of fnmatchcase map_of a n (build-IsUnique c.roles blank tt) h in
          let held : gives map_of p n ≡ true = rw e i in
          let listed : any (λ r. is_in p r.agents && (r.name == n)) c.roles ≡ true =
            ground (arith, gives-build c.roles blank p n, held) in
          let (r, mr, er) = any-Among _ c.roles listed in
          let (q, mq, eq) = any-Among (λ q. q == p) r.agents (ground (arith, er)) in
          (
            r,
            mr,
            (eq_iff r.name n).0 (ground (arith, er)),
            Among-any (λ p. matches fnmatchcase a p) r.agents q mq
                (subst (λ z. matches fnmatchcase a z ≡ true) (sym ((eq_iff q p).0 eq)) m),
          )

      back :
          ((r : AclRole) × Among r c.roles
            × (r.name ≡ n)
            × (any (λ p. matches fnmatchcase a p) r.agents ≡ true))
          → is_in n (roles_in fnmatchcase map_of a) ≡ true
      back (r, mr, e, h) =
          let (p, mp, m) = any-Among (λ p. matches fnmatchcase a p) r.agents h in
          let here : is_in p r.agents ≡ true = Among-any (λ q. q == p) r.agents p mp (eq_refl p) in
          let same : (r.name == n) ≡ true = (eq_iff r.name n).1 e in
          let listed =
            Among-any (λ r. is_in p r.agents && (r.name == n)) c.roles r mr
              (rw (here, same) refl) in
          gives-roles_in map_of a n p (ground (arith, gives-build c.roles blank p n, listed)) m
