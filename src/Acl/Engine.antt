-- ===== src/Acl/Engine.antt =====
-- herdmaster/src/herdmaster/acl/engine.py, `AclEngine`, with `AclRole` and `AclConfig` of config.py and
-- the addresses of bus/messages.py. `fnmatch.fnmatchcase` is a parameter. A set is a list without
-- repetition, in an order that no theorem depends on.
pub mod Roles
pub mod Changes
pub mod Decisions
use Prim.Native.Char.{code}
use agentic_agnostic_orchest.Base.{
  String, Bool, true, false, not, ◌&&◌, ◌||◌, Option, none, some, List, [], ◌∷◌, ◌++◌, Dict, get,
  put, pop, contains, get_or, lower, ◌==◌, eqb, if◌then◌else◌, filter, any, is_empty,
}

pub record AclRole : Type 0 where
  pub name : String
  pub agents : List String
  pub can_send_to : List String
  pub can_receive_from : List String
  pub can_dispatch_tasks : Bool
  pub can_reassign_tasks : Bool

pub record AclConfig : Type 0 where
  pub default_policy : String
  pub roles : List AclRole

-- `x in xs` and `set.add`
unfoldable pub is_in : String → List String → Bool
is_in x xs = any (λ y. y == x) xs

unfoldable pub set_add : String → List String → List String
unfolding is_in
set_add x xs = if is_in x xs then xs else x ∷ xs

-- `set.update`
unfoldable pub set_update : List String → List String → List String
unfolding set_add
set_update [] ys = ys
set_update (x ∷ xs) ys = set_add x (set_update xs ys)

pub record AgentRoleMap : Type 0 where
  pub agent_to_roles : Dict (List String)
  pub role_to_agents : Dict (List String)

-- `d.setdefault(k, set()).add(v)`
unfoldable pub add_entry : Dict (List String) → String → String → Dict (List String)
unfolding set_add
add_entry d k v = put d k (set_add v (get_or (get d k) []))

-- `_AgentRoleMap.add`
unfoldable pub add_role : AgentRoleMap → String → String → AgentRoleMap
unfolding add_entry
add_role m agent role_name = record {
  agent_to_roles = add_entry m.agent_to_roles agent role_name;
  role_to_agents = add_entry m.role_to_agents role_name agent;
}

-- `self.role_to_agents.get(role, set()).discard(agent)` for each role
unfoldable pub discard_all : String → List String → Dict (List String) → Dict (List String)
discard_all agent [] d = d
discard_all agent (role ∷ rest) d = elim (get d role) [
  | none ↦ discard_all agent rest d
  | some agents ↦ discard_all agent rest (put d role (filter (λ a. not (a == agent)) agents))
]

unfoldable pub remove_agent : AgentRoleMap → String → AgentRoleMap
unfolding discard_all
remove_agent m agent = record {
  agent_to_roles = pop m.agent_to_roles agent;
  role_to_agents = discard_all agent (get_or (get m.agent_to_roles agent) []) m.role_to_agents;
}

unfoldable pub get_agents_in_role : AgentRoleMap → String → List String
get_agents_in_role m role_name = get_or (get m.role_to_agents role_name) []

pub record AclEngine : Type 0 where
  pub config : AclConfig
  pub roles : Dict AclRole
  pub agent_roles : AgentRoleMap
  pub default_policy : String

-- `{r.name: r for r in config.roles}`: the last role of a name stays.
unfoldable pub roles_by_name : List AclRole → Dict AclRole → Dict AclRole
roles_by_name [] d = d
roles_by_name (r ∷ rest) d = roles_by_name rest (put d r.name r)

-- The loops of `_build_agent_role_map`
unfoldable pub add_patterns : String → List String → AgentRoleMap → AgentRoleMap
unfolding add_role
add_patterns name [] m = m
add_patterns name (p ∷ ps) m = add_patterns name ps (add_role m p name)

unfoldable pub build_agent_role_map : List AclRole → AgentRoleMap → AgentRoleMap
unfolding add_patterns
build_agent_role_map [] m = m
build_agent_role_map (r ∷ rest) m = build_agent_role_map rest (add_patterns r.name r.agents m)

-- `AclEngine.__init__`, and what `swap_config` makes of any engine
unfoldable pub new_engine : AclConfig → AclEngine
unfolding roles_by_name build_agent_role_map lower
new_engine c = record {
  config = c;
  roles = roles_by_name c.roles [];
  agent_roles = build_agent_role_map c.roles (record { agent_to_roles = []; role_to_agents = [] });
  default_policy = lower c.default_policy;
}

unfoldable pub swap_config : AclEngine → AclConfig → AclEngine
unfolding new_engine
swap_config e c = new_engine c

-- `set_role`; `none` is its ValueError.
unfoldable pub set_role : AclEngine → String → String → Option AclEngine
unfolding remove_agent add_role
set_role e agent role_name =
    if contains e.roles role_name
    then some
        (record e { agent_roles = add_role (remove_agent e.agent_roles agent) agent role_name })
    else none

-- `is_broadcast`
unfoldable pub is_broadcast : String → Bool
is_broadcast to = to == "broadcast"

-- What follows a prefix
unfoldable pub drop_prefix : String → String → Option String
drop_prefix String.[] t = some t
drop_prefix (String.◌∷◌ c s) String.[] = none
drop_prefix (String.◌∷◌ c s) (String.◌∷◌ d t) =
    let rest = drop_prefix s t in if eqb (code c) (code d) then rest else none

-- `to.startswith("group:") and len(to) > len("group:")`
unfoldable pub is_group : String → Bool
unfolding drop_prefix
is_group to = elim (drop_prefix "group:" to) [ none ↦ false | some name ↦ not (is_empty name) ]

-- Why a message may or may not be sent.
pub data Reason : Type 0 where
  no_roles allowed_by_sender allowed_by_receiver default_allow default_deny : Reason

-- `fnmatchcase value pattern`
module _ (fnmatchcase : String → String → Bool) where
  -- `_agent_matches_pattern`
  unfoldable pub matches : String → String → Bool
  matches agent pattern = (pattern == "*") || fnmatchcase agent pattern

  -- The loop of `_AgentRoleMap.get_roles`
  unfoldable pub roles_in : Dict (List String) → String → List String
  unfolding matches set_update
  roles_in [] agent = []
  roles_in ((pattern, names) ∷ rest) agent =
      let others = roles_in rest agent in
      if matches agent pattern then set_update names others else others

  unfoldable pub get_roles : AclEngine → String → List String
  unfolding roles_in
  get_roles e agent = roles_in e.agent_roles.agent_to_roles agent

  unfoldable pub get_roles_for_agent : AclEngine → String → List String
  unfolding get_roles is_in
  get_roles_for_agent e agent = elim (get_roles e agent) [
    | [] ↦ if is_in "*" (get_roles e "*") then get_roles e "*" else []
    | n ∷ ns ↦ n ∷ ns
  ]

  -- The roles whose agents match a group, by name
  unfoldable pub group_roles : List AclRole → String → List String
  unfolding matches set_add
  group_roles [] group = []
  group_roles (r ∷ rest) group =
      let others = group_roles rest group in
      if any (λ p. matches group p) r.agents then set_add r.name others else others

  -- `_resolve_target_roles`; `f"group:{group_name}"` is the target again.
  unfoldable pub resolve_target_roles : AclEngine → String → List String
  unfolding is_broadcast is_group group_roles get_roles_for_agent
  resolve_target_roles e target =
      if is_broadcast target
      then []
      else if is_group target
      then group_roles e.config.roles target
      else get_roles_for_agent e target

  -- The loop over the sender's roles: whether one of them allows, and the roles that were checked.
  unfoldable pub check_senders : AclEngine → String → List String → List String → Bool × List String
  unfolding matches
  check_senders e to [] checked = (false, checked)
  check_senders e to (n ∷ ns) checked = elim (get e.roles n) [
    | none ↦ check_senders e to ns checked
    | some r ↦
        if any (λ p. matches to p) r.can_send_to
        then (true, checked ++ n ∷ [])
        else check_senders e to ns (checked ++ n ∷ [])
  ]

  -- The loop over the target's roles
  unfoldable pub check_receivers : AclEngine → String → List String → Bool
  unfolding matches
  check_receivers e from_agent [] = false
  check_receivers e from_agent (n ∷ ns) =
      let rest = check_receivers e from_agent ns in
      elim (get e.roles n) [
        | none ↦ rest
        | some r ↦ any (λ p. matches from_agent p) r.can_receive_from || rest
      ]

  -- `_check_send_allowed` for a sender with roles
  unfoldable pub check_roles :
      AclEngine → List String → String → String → Bool × Reason × List String
  unfolding check_senders check_receivers resolve_target_roles
  check_roles e from_roles from_agent to_agent =
      let (sender, checked) = check_senders e to_agent from_roles [] in
      if sender
      then (true, allowed_by_sender, checked)
      else if check_receivers e from_agent (resolve_target_roles e to_agent)
      then (true, allowed_by_receiver, checked)
      else if e.default_policy == "allow"
      then (true, default_allow, checked)
      else (false, default_deny, checked)

  unfoldable pub check_send_allowed : AclEngine → String → String → Bool × Reason × List String
  unfolding check_roles get_roles
  check_send_allowed e from_agent to_agent = elim (get_roles e from_agent) [
    | [] ↦ (false, no_roles, [])
    | n ∷ ns ↦ check_roles e (n ∷ ns) from_agent to_agent
  ]

  unfoldable pub can_send : AclEngine → String → String → Bool
  unfolding check_send_allowed
  can_send e from_agent to_agent = (check_send_allowed e from_agent to_agent).0

  -- `check_message`: `none` is AclDenied.
  unfoldable pub check_message : AclEngine → String → String → Option (Unit {0})
  unfolding check_send_allowed
  check_message e from_agent to_agent =
      if (check_send_allowed e from_agent to_agent).0 then some tt else none

  -- The loop of `can_dispatch` and `can_reassign`
  unfoldable pub any_role : AclEngine → (AclRole → Bool) → List String → Bool
  any_role e permits [] = false
  any_role e permits (n ∷ ns) =
      let rest = any_role e permits ns in
      elim (get e.roles n) [ none ↦ rest | some r ↦ permits r || rest ]

  unfoldable pub can_dispatch : AclEngine → String → Bool
  unfolding any_role get_roles_for_agent
  can_dispatch e agent = any_role e (λ r. r.can_dispatch_tasks) (get_roles_for_agent e agent)

  unfoldable pub can_reassign : AclEngine → String → Bool
  unfolding any_role get_roles_for_agent
  can_reassign e agent = any_role e (λ r. r.can_reassign_tasks) (get_roles_for_agent e agent)
