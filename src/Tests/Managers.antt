-- ===== src/Tests/Managers.antt =====
-- The role assignment manager.
use go_permissions.Base.{
  String, ◌≡◌, ◌↔◌, refl, true, false, ◌&&◌, List, [], ◌∷◌, Option, none, some, ne_of_test,
}
use go_permissions.Base.Results.{Error, message, role_not_assigned}
use go_permissions.Types.{PrincipalRef, RoleAssignment, Value, pos, str, opaque, principal_user}
use go_permissions.BuiltIn
use go_permissions.System.{System}
use go_permissions.RoleAssignmentManager.{
  RoleAssignmentManager, MultiError, new_role_assignment_manager, add_roles,
}
use go_permissions.RoleAssignmentManager.Rules.{
  MinMaxInstancesRule, RequireAtLeastRule, cannot_combine_roles, cannot_add_self,
  cannot_remove_self, min_max_instances, validate_removal,
}
use go_permissions.RoleAssignmentManager.Cleanup.{
  cleanup_team_role_assignments, cleanup_all_role_assignments, remove_bulk_users,
}
use go_permissions.RoleAssignmentManager.Cleanup.Teams.{held_by, held-cleanup_team_role_assignments}
use go_permissions.RoleAssignmentManager.Combining.{holds, add_roles_never_combines}
use go_permissions.RoleAssignmentManager.SelfRules.{cannot_add_self_lem, cannot_remove_self_lem}
use go_permissions.RoleAssignmentManager.Counting.{min_max_instances_uncounted}
use go_permissions.RoleAssignmentManager.Removal.{validate_removal_iff}
use package.go_permissions.Tests.Program.{program}
use package.go_permissions.Tests.Data.{store, ann, cold}

abbrev bob : PrincipalRef
bob = record { kind = principal_user; id = "bob" }

abbrev unscoped : String → RoleAssignment
unscoped role_id = record { role_id = role_id; binding_values = [] }

-- ann is a lead, and the team dev holds both roles
abbrev system : System
system = record {
  identity = none;
  store = record store {
    assignments =
        ("user:ann", unscoped "lead" ∷ [])
        ∷ ("team:dev", unscoped "editor" ∷ unscoped "lead" ∷ unscoped "editor" ∷ [])
        ∷ [];
  };
  built_ins = BuiltIn.new_registry;
  cache = cold;
  public_role_id = "";
  authenticated_role_id = "";
  admin_role_id = "";
  admin_group_id = "";
}

abbrev pointer : String → Value
pointer t =
    opaque (record { type_name = "*string"; identity = 0; printed = "0xc000"; truncated = none })

abbrev manager : RoleAssignmentManager
manager = new_role_assignment_manager ("editor" ∷ []) none none pointer

abbrev apart : RoleAssignmentManager
apart = record manager { assignment_rules = cannot_combine_roles "lead" "editor" ∷ [] }

add_roles_never_combines_example :
    (holds (add_roles system apart bob ("editor" ∷ []) none).0 apart.base bob "lead"
      && holds (add_roles system apart bob ("editor" ∷ []) none).0 apart.base bob "editor")
    ≡ false
unfolding program
add_roles_never_combines_example =
    add_roles_never_combines apart "lead" "editor" [] [] refl system bob bob none ("editor" ∷ [])
      refl

add_roles_test :
    (add_roles system apart ann ("editor" ∷ []) none).1
    ≡ some (message "cannot combine roles lead and editor")
unfolding program
add_roles_test = refl

cannot_add_self_lem_example : holds system manager.base ann "lead" ≡ true
unfolding program
cannot_add_self_lem_example =
    cannot_add_self_lem system (record manager { assignment_rules = cannot_add_self [] ∷ [] }) ann
      ann refl [] [] [] ("lead" ∷ []) "lead" refl refl refl refl

cannot_remove_self_lem_example : holds system manager.base ann "editor" ≡ false
unfolding program
cannot_remove_self_lem_example =
    cannot_remove_self_lem system (record manager { assignment_rules = cannot_remove_self [] ∷ [] })
      ann ann refl [] [] [] ("editor" ∷ []) "editor" refl refl refl refl

-- at most one lead
abbrev one_lead : MinMaxInstancesRule
one_lead = record { role_id = "lead"; min = pos 0; max = pos 1; kind = none }

min_max_instances_uncounted_example :
    min_max_instances one_lead system manager.base [] (unscoped "lead" ∷ []) bob none ≡ none
unfolding program
min_max_instances_uncounted_example =
    min_max_instances_uncounted one_lead system manager.base _ refl bob refl []
      (unscoped "lead" ∷ []) none

-- at least five leads
abbrev five_leads : RequireAtLeastRule
five_leads = record { role_id = "lead"; min = pos 5; kind = some principal_user }

validate_removal_iff_example :
    (validate_removal five_leads system manager.base ("bob" ∷ []) [] ≡ none) ↔ (true ≡ true)
unfolding program
validate_removal_iff_example =
    validate_removal_iff five_leads system manager.base _ refl refl ("bob" ∷ []) []

abbrev last : Option Error → List (Option Error) → Option Error
last merr [] = merr
last merr (none ∷ errors) = last merr errors
last merr (some e ∷ errors) = last (some e) errors

-- the error that was collected last
abbrev last_error : MultiError
last_error = record { append = λ merr errors. last merr errors; error_or_nil = λ merr. merr }

held-cleanup_team_role_assignments_example :
    held_by (cleanup_team_role_assignments last_error system manager.base "dev").0 "team:dev"
    ≡ unscoped "lead" ∷ []
unfolding program
held-cleanup_team_role_assignments_example =
    held-cleanup_team_role_assignments last_error system manager.base refl "dev"
      (ne_of_test "dev" "" refl) (tt, (tt, (tt, tt))) "team:dev"

-- a role that is held for a team stays where the manager has no scope
abbrev guest : System
guest = record system {
  store = record system.store {
    assignments =
        ("user:bob", record { role_id = "editor"; binding_values = ("team", str "dev") ∷ [] } ∷ [])
        ∷ [];
  };
}

cleanup_all_test :
    cleanup_all_role_assignments last_error guest manager.base
    ≡ (guest, some (role_not_assigned "editor" "user:bob"))
unfolding program
cleanup_all_test = refl

remove_bulk_users_test : remove_bulk_users last_error system manager ("ann" ∷ []) [] none ≡ (
  record system {
    store = record system.store {
      assignments = ("team:dev", unscoped "editor" ∷ unscoped "lead" ∷ unscoped "editor" ∷ []) ∷ [];
    };
  },
  none,
)
unfolding program
remove_bulk_users_test = refl
