-- ===== src/Acl/Engine/Decisions.antt =====
-- `_check_send_allowed`: exactly when a message may be sent.
use agentic_agnostic_orchest.Base.{
  ◌≡◌, ◌≢◌, ◌↔◌, refl, sym, ◌∙◌, subst, String, Bool, true, false, none, some, List, [], ◌∷◌, ◌++◌,
  get, ◌==◌, any, Among, eq_iff, Bool-cases, Option-cases, inl, inr, ◌⊎◌,
}
use agentic_agnostic_orchest.Acl.Engine.{
  AclRole, AclEngine, matches, get_roles, resolve_target_roles, check_senders, check_receivers,
  check_roles, check_send_allowed, can_send, check_message,
}

list_cases : (xs : List String) → (xs ≡ []) ⊎ ((x : String) × (ys : List String) × (xs ≡ x ∷ ys))
list_cases [] = inl refl
list_cases (x ∷ ys) = inr (x, ys, refl)

module _ (fnmatchcase : String → String → Bool) (e : AclEngine) where
  -- One of the named roles has a pattern, of those that `patterns` selects, that matches `address`.
  abbrev pub Grants : (AclRole → List String) → String → List String → Type 0
  Grants patterns address names =
      (n : String) × (r : AclRole) × Among n names
      × (get e.roles n ≡ some r)
      × (any (λ p. matches fnmatchcase address p) (patterns r) ≡ true)

  Grants-later :
      (patterns : AclRole → List String) (address n : String) (ns : List String)
      → Grants patterns address ns
      → Grants patterns address (n ∷ ns)
  Grants-later patterns address n ns (m, r, among, found, h) = (m, r, inr among, found, h)

  -- What one role of the list decides.
  granted_at_once :
      (patterns : AclRole → List String) (address n : String) (ns : List String) (r : AclRole)
      → get e.roles n ≡ some r
      → any (λ p. matches fnmatchcase address p) (patterns r) ≡ true
      → Grants patterns address (n ∷ ns)
  granted_at_once patterns address n ns r found h = (n, r, inl refl, found, h)

  -- A list whose first role does not grant.
  granted_later :
      (patterns : AclRole → List String) (address n : String) (ns : List String)
      → ((r : AclRole)
          → get e.roles n ≡ some r
          → any (λ p. matches fnmatchcase address p) (patterns r) ≡ true
          → ⊥)
      → Grants patterns address (n ∷ ns)
      → Grants patterns address ns
  granted_later patterns address n ns refusal (m, r, inl same, found, h) =
      absurd (refusal r (subst (λ z. get e.roles z ≡ some r) same found) h)
  granted_later patterns address n ns refusal (m, r, inr among, found, h) = (m, r, among, found, h)

  no_grant :
      (patterns : AclRole → List String) (address n : String) (r : AclRole)
      → get e.roles n ≡ some r
      → any (λ p. matches fnmatchcase address p) (patterns r) ≡ false
      → (r' : AclRole) → get e.roles n ≡ some r'
      → any (λ p. matches fnmatchcase address p) (patterns r') ≡ true
      → ⊥
  no_grant patterns address n r known refuses r' found h =
      let same : some r ≡ some r' = sym known ∙ found in
      let r_is : r ≡ r' = cc same in
      let h' =
        subst (λ z. any (λ p. matches fnmatchcase address p) (patterns z) ≡ true) (sym r_is) h in
      cc (refuses, h')

  senders-Grants :
      (to : String) (ns checked : List String)
      → ((check_senders fnmatchcase e to ns checked).0 ≡ true) ↔ Grants (λ r. r.can_send_to) to ns
  unfolding check_senders
  senders-Grants to [] checked = (λ h. absurd (cc h), λ (n, r, m, found, h). absurd m)
  senders-Grants to (n ∷ ns) checked = elim (Option-cases (get e.roles n)) [
    | inl unknown ↦
        let (out, back) = senders-Grants to ns checked in
        rw (unknown, check_senders)
          (
            λ h. Grants-later (λ r. r.can_send_to) to n ns (out h),
            λ g.
                back
                  (granted_later (λ r. r.can_send_to) to n ns (λ r found h. cc (unknown, found)) g),
          )
    | inr (r, known) ↦ elim (Bool-cases (any (λ p. matches fnmatchcase to p) r.can_send_to)) [
      | inl grants ↦
          rw (known, check_senders, grants)
            (λ h. granted_at_once (λ r. r.can_send_to) to n ns r known grants, λ g. refl)
      | inr refuses ↦
          let (out, back) = senders-Grants to ns (checked ++ n ∷ []) in
          rw (known, check_senders, refuses)
            (
              λ h. Grants-later (λ r. r.can_send_to) to n ns (out h),
              λ g. back (
                  granted_later (λ r. r.can_send_to) to n ns
                    (no_grant (λ r. r.can_send_to) to n r known refuses) g),
            )
    ]
  ]

  receivers-Grants :
      (from_agent : String) (ns : List String)
      → (check_receivers fnmatchcase e from_agent ns ≡ true)
        ↔ Grants (λ r. r.can_receive_from) from_agent ns
  unfolding check_receivers
  receivers-Grants from_agent [] = (λ h. absurd (cc h), λ (n, r, m, found, h). absurd m)
  receivers-Grants from_agent (n ∷ ns) =
      let (out, back) = receivers-Grants from_agent ns in
      elim (Option-cases (get e.roles n)) [
        | inl unknown ↦
            rw (unknown, check_receivers)
              (
                λ h. Grants-later (λ r. r.can_receive_from) from_agent n ns (out h),
                λ g. back (
                    granted_later (λ r. r.can_receive_from) from_agent n ns
                      (λ r found h. cc (unknown, found)) g),
              )
        | inr (r, known) ↦
            elim (Bool-cases (any (λ p. matches fnmatchcase from_agent p) r.can_receive_from)) [
              | inl grants ↦
                  rw (known, check_receivers, grants)
                    (
                      λ h. granted_at_once (λ r. r.can_receive_from) from_agent n ns r known grants,
                      λ g. refl,
                    )
              | inr refuses ↦
                  rw (known, check_receivers, refuses)
                    (
                      λ h. Grants-later (λ r. r.can_receive_from) from_agent n ns (out h),
                      λ g. back (
                          granted_later (λ r. r.can_receive_from) from_agent n ns
                            (no_grant (λ r. r.can_receive_from) from_agent n r known refuses) g),
                    )
            ]
      ]

  -- A grant by one of the sender's roles, by one of the target's, or by default.
  abbrev pub Granted : List String → String → String → Type 0
  Granted names from_agent to_agent =
      Grants (λ r. r.can_send_to) to_agent names
      ⊎ (Grants (λ r. r.can_receive_from) from_agent (resolve_target_roles fnmatchcase e to_agent)
          ⊎ (e.default_policy ≡ "allow"))

  roles-Granted :
      (names : List String) (from_agent to_agent : String)
      → ((check_roles fnmatchcase e names from_agent to_agent).0 ≡ true)
        ↔ Granted names from_agent to_agent
  unfolding check_roles
  roles-Granted names from_agent to_agent =
      let (s_out, s_back) = senders-Grants to_agent names [] in
      let targets = resolve_target_roles fnmatchcase e to_agent in
      let (r_out, r_back) = receivers-Grants from_agent targets in
      elim (Bool-cases (check_senders fnmatchcase e to_agent names []).0) [
        | inl sends ↦ rw sends (λ h. inl (s_out sends), λ g. refl)
        | inr silent ↦ elim (Bool-cases (check_receivers fnmatchcase e from_agent targets)) [
          | inl receives ↦ rw (silent, receives) (λ h. inr (inl (r_out receives)), λ g. refl)
          | inr deaf ↦ elim (Bool-cases (e.default_policy == "allow")) [
            | inl open_policy ↦
                rw (silent, deaf, open_policy)
                  (λ h. inr (inr ((eq_iff e.default_policy "allow").0 open_policy)), λ g. refl)
            | inr closed ↦
                rw (silent, deaf, closed)
                  (
                    λ h. absurd (cc h),
                    λ g. elim g [
                      | inl a ↦ cc (s_back a, silent)
                      | inr (inl b) ↦ cc (r_back b, deaf)
                      | inr (inr c) ↦ cc ((eq_iff e.default_policy "allow").1 c, closed)
                    ],
                  )
          ]
        ]
      ]

  -- When a message may be sent: the sender has a role, and a role of the sender names the target, a role
  -- of the target names the sender, or the default is to allow.
  pub record Permits (from_agent to_agent : String) : Type 0 where
    pub has_role : get_roles fnmatchcase e from_agent ≢ []
    pub granted : Granted (get_roles fnmatchcase e from_agent) from_agent to_agent

  -- can_send allows a message exactly when the sender has a role and a role of the sender names
  -- the target, a role of the target names the sender, or the default is to allow; check_message
  -- raises AclDenied just when can_send refuses.
  pub can_send_iff :
      (from_agent to_agent : String)
      → ((can_send fnmatchcase e from_agent to_agent ≡ true) ↔ Permits from_agent to_agent)
        × ((check_message fnmatchcase e from_agent to_agent ≡ none)
            ↔ (can_send fnmatchcase e from_agent to_agent ≡ false))
  unfolding can_send check_message check_send_allowed check_roles
  can_send_iff from_agent to_agent = (
    elim (list_cases (get_roles fnmatchcase e from_agent)) [
      | inl nobody ↦
          rw (nobody, can_send, check_send_allowed)
            (λ h. absurd (cc h), λ p. absurd (p.has_role nobody))
      | inr (n, ns, some_roles) ↦
          let (out, back) = roles-Granted (n ∷ ns) from_agent to_agent in
          rw (some_roles, can_send, check_send_allowed)
            (
              λ h. record { has_role = λ q. cc (q, some_roles); granted = rw some_roles (out h) },
              λ p. back (rw some_roles at p.granted),
            )
    ],
    elim (Bool-cases (check_send_allowed fnmatchcase e from_agent to_agent).0) [
      | inl yes_sent ↦ rw yes_sent (λ h. absurd (cc h), λ h. absurd (cc h))
      | inr denied ↦ rw denied (λ h. refl, λ h. refl)
    ],
  )
