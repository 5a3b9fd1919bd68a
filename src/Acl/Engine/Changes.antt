-- ===== src/Acl/Engine/Changes.antt =====
-- `set_role`: which roles an agent has after it.
use agentic_agnostic_orchest.Base.{
  ◌≡◌, ◌≢◌, ◌↔◌, sym, ap, subst, String, Bool, true, Option, none, some, List, [], Dict, pop,
  contains, ◌==◌, if◌then◌else◌, arith, eq_iff, eq_refl, Bool-cases, inl, inr, ◌⊎◌, get-pop,
  IsUnique, put-IsUnique, pop-IsUnique, str_cases,
}
use agentic_agnostic_orchest.Acl.Engine.{
  AclEngine, is_in, add_entry, add_role, remove_agent, set_role, matches, roles_in, get_roles,
}
use agentic_agnostic_orchest.Acl.Engine.Roles.{gives, gives-add_entry, gives-roles_in, roles_in_of}

-- What the map gives after the agent's own entry is replaced.
gives_after :
    (d : Dict (List String)) (agent role p n : String)
    → gives (add_entry (pop d agent) agent role) p n
      ≡ (if agent == p then role == n else gives d p n)
unfolding is_in
gives_after d agent role p n =
    ground (arith, gives-add_entry (pop d agent) agent role p n, get-pop d agent p)

module _ (fnmatchcase : String → String → Bool) where
  -- The roles that an engine gives an agent by a pattern other than `own`.
  abbrev pub ByOtherPattern : AclEngine → String → String → String → Type 0
  ByOtherPattern e own a n =
      (p : String) × (own ≢ p)
      × (gives e.agent_roles.agent_to_roles p n ≡ true)
      × (matches fnmatchcase a p ≡ true)

  -- Where set_role succeeds on an engine whose map has each pattern once, an agent has a role
  -- afterwards exactly if it is the role that was set and the given agent, as a pattern, matches,
  -- or if another pattern that matches the agent gave the role before.
  pub set_role_iff :
      (e e' : AclEngine) (agent role a n : String)
      → IsUnique e.agent_roles.agent_to_roles
      → set_role e agent role ≡ some e'
      → (is_in n (get_roles fnmatchcase e' a) ≡ true)
        ↔ ((matches fnmatchcase a agent ≡ true) × (role ≡ n) ⊎ ByOtherPattern e agent a n)
  unfolding set_role get_roles remove_agent add_role add_entry
  set_role_iff e e' agent role a n u set = elim (Bool-cases (contains e.roles role)) [
    | inr unknown ↦ absurd (cc (rw unknown at set))
    | inl known ↦
        let is_map : e'.agent_roles.agent_to_roles ≡ map_of = ap map_in (sym (rw known at set)) in
        rw is_map (out, back)
  ]
    where
      map_of : Dict (List String)
      map_of = add_entry (pop e.agent_roles.agent_to_roles agent) agent role

      map_in : Option AclEngine → Dict (List String)
      map_in none = []
      map_in (some x) = x.agent_roles.agent_to_roles

      unique : IsUnique map_of
      unique = put-IsUnique _ agent _ (pop-IsUnique e.agent_roles.agent_to_roles agent u)

      out :
          is_in n (roles_in fnmatchcase map_of a) ≡ true
          → (matches fnmatchcase a agent ≡ true) × (role ≡ n) ⊎ ByOtherPattern e agent a n
      out h =
          let (p, names, found, i, m) = roles_in_of fnmatchcase map_of a n unique h in
          let held : gives map_of p n ≡ true = rw found i in
          let after = gives_after e.agent_roles.agent_to_roles agent role p n in
          elim (str_cases agent p) [
            | inl same ↦ inl (
              subst (λ z. matches fnmatchcase a z ≡ true) (sym same) m,
              ground (arith, eq_iff agent p, eq_iff role n),
            )
            | inr other ↦ inr (p, other, ground (arith, eq_iff agent p), m)
          ]

      back :
          (matches fnmatchcase a agent ≡ true) × (role ≡ n) ⊎ ByOtherPattern e agent a n
          → is_in n (roles_in fnmatchcase map_of a) ≡ true
      back (inl (m, same)) =
          gives-roles_in fnmatchcase map_of a n agent
            (ground (
              arith,
              gives_after e.agent_roles.agent_to_roles agent role agent n,
              eq_refl agent,
              eq_iff role n,
            ))
            m
      back (inr (p, other, held, m)) =
          gives-roles_in fnmatchcase map_of a n p
            (ground
              (arith, gives_after e.agent_roles.agent_to_roles agent role p n, eq_iff agent p))
            m
