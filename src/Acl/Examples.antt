-- ===== src/Acl/Examples.antt =====
-- The theorems of the access control at a concrete policy, with patterns that match only themselves
-- beside the wildcard.
use agentic_agnostic_orchest.Base.{
  ◌≡◌, ◌↔◌, ◌⊎◌, refl, String, Bool, true, false, none, some, [], ◌∷◌, Among, any, ◌==◌, get, put,
  contains, IsUnique,
}
use agentic_agnostic_orchest.Acl.Engine.{
  AclRole, AclConfig, AclEngine, is_in, new_engine, set_role, matches, get_roles, can_send,
  check_message, roles_by_name, build_agent_role_map, add_patterns, add_role, add_entry, set_add,
  remove_agent,
}
use agentic_agnostic_orchest.Acl.Engine.Roles.{get_roles_iff}
use agentic_agnostic_orchest.Acl.Engine.Changes.{set_role_iff, ByOtherPattern}
use agentic_agnostic_orchest.Acl.Engine.Decisions.{Permits, can_send_iff}

abbrev exact : String → String → Bool
exact value pattern = value == pattern

abbrev lead : AclRole
lead = record {
  name = "lead";
  agents = "ana" ∷ [];
  can_send_to = "*" ∷ [];
  can_receive_from = "*" ∷ [];
  can_dispatch_tasks = true;
  can_reassign_tasks = true;
}

abbrev worker : AclRole
worker = record {
  name = "worker";
  agents = "*" ∷ [];
  can_send_to = "ana" ∷ [];
  can_receive_from = [];
  can_dispatch_tasks = false;
  can_reassign_tasks = false;
}

abbrev policy : AclConfig
policy = record { default_policy = "deny"; roles = lead ∷ worker ∷ [] }

abbrev engine : AclEngine
engine = new_engine policy

get_roles_iff_example : (is_in "worker" (get_roles exact engine "bob") ≡ true) ↔ (
    (r : AclRole) × Among r (lead ∷ worker ∷ [])
    × (r.name ≡ "worker")
    × (any (λ p. matches exact "bob" p) r.agents ≡ true))
get_roles_iff_example = get_roles_iff exact policy "bob" "worker"

can_send_iff_example :
    ((can_send exact engine "bob" "ana" ≡ true) ↔ Permits exact engine "bob" "ana")
    × ((check_message exact engine "bob" "ana" ≡ none)
        ↔ (can_send exact engine "bob" "ana" ≡ false))
can_send_iff_example = can_send_iff exact engine "bob" "ana"

engine_unique : IsUnique engine.agent_roles.agent_to_roles
unfolding new_engine build_agent_role_map add_patterns add_role add_entry set_add get put
engine_unique = (refl, (refl, tt))

abbrev promoted : AclEngine
promoted = record engine {
  agent_roles = add_role (remove_agent engine.agent_roles "bob") "bob" "lead";
}

promotes : set_role engine "bob" "lead" ≡ some promoted
unfolding set_role new_engine roles_by_name contains get put
promotes = refl

set_role_iff_example : (is_in "worker" (get_roles exact promoted "bob") ≡ true) ↔ (
    (matches exact "bob" "bob" ≡ true) × (◌≡◌ {A = String} "lead" "worker")
    ⊎ ByOtherPattern exact engine "bob" "bob" "worker")
set_role_iff_example =
    set_role_iff exact engine promoted "bob" "lead" "bob" "worker" engine_unique promotes
