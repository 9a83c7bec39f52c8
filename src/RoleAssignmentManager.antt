-- ===== src/RoleAssignmentManager.antt =====
-- The role assignment manager (role_assignment_manager.go) over a service and its bootstrap store. A write
-- returns the new system and its error, `none` being nil. Where Go ranges over a set, the model takes the
-- order of insertion.
pub mod Scopes
pub mod Rules
pub mod Cleanup
pub mod Proposing
pub mod Combining
pub mod SelfRules
pub mod Counting
pub mod Removal
use go_permissions.Base.{
  String, Bool, true, false, not, List, [], ◌∷◌, ◌++◌, Option, none, some, if◌then◌else◌, map,
  filter, contains_string,
}
use go_permissions.Base.Maps.{Map, put}
use go_permissions.Base.Sets.{add_all}
use go_permissions.Base.Results.{Error, Result, ok, err, ◌>>=◌}
use go_permissions.Types.{
  RoleAssignment, RoleAssignmentHit, PrincipalRef, Value, str, principal_user, principal_group,
  principal_team, validate_principal,
}
use go_permissions.System
use go_permissions.System.{System, role_assignments_for_principal, role_assignments_for_role_id}
use package.go_permissions.RoleAssignmentManager.Scopes.{
  ManagerBase, filter_assignments_by_scope, filter_assignment_hits_by_scope,
}

-- A rule reads the service and answers with an error or nil.
abbrev pub RoleAssignmentRule : Type 0
RoleAssignmentRule =
    System
    → ManagerBase
    → List RoleAssignment
    → List RoleAssignment
    → PrincipalRef
    → Option PrincipalRef
    → Option Error

abbrev pub PrincipalRemovalRule : Type 0
PrincipalRemovalRule = System → ManagerBase → List String → List String → Option Error

pub record RoleAssignmentManager : Type 0 where
  pub base : ManagerBase
  pub assignment_rules : List RoleAssignmentRule
  pub remove_rules : List PrincipalRemovalRule

-- What the package go-multierror gives: a nil `*multierror.Error` is `none`.
pub record MultiError : Type 0 where
  pub append : Option Error → List (Option Error) → Option Error
  pub error_or_nil : Option Error → Option Error

-- AddRemovalRule and AddAssignmentRule
unfoldable pub add_removal_rule :
    RoleAssignmentManager → PrincipalRemovalRule → RoleAssignmentManager
add_removal_rule m rule = record m { remove_rules = m.remove_rules ++ rule ∷ [] }

unfoldable pub add_assignment_rule :
    RoleAssignmentManager → RoleAssignmentRule → RoleAssignmentManager
add_assignment_rule m rule = record m { assignment_rules = m.assignment_rules ++ rule ∷ [] }

-- NewRoleAssignmentManager; `pointer_to` is what a `*string` is as a value
abbrev pub new_role_assignment_manager :
    List String → Option String → Option String → (String → Value) → RoleAssignmentManager
new_role_assignment_manager roles obj team pointer_to = record {
  base = record {
    managed_roles = roles;
    object_scope = obj;
    team_scope = team;
    pointer_to = pointer_to;
  };
  assignment_rules = [];
  remove_rules = [];
}

-- the assignments of a principal in the scope of the manager
unfoldable pub held_in_scope : System → ManagerBase → PrincipalRef → Result (List RoleAssignment)
held_in_scope s b principal = do
  current ← role_assignments_for_principal s principal
  ok (filter_assignments_by_scope current b.team_scope b.object_scope)

abbrev pub role_ids : List RoleAssignment → List String
role_ids as' = map (λ (a : RoleAssignment). a.role_id) as'

pub record Proposal : Type 0 where
  pub add : List String
  pub remove : List String

-- what computeProposed makes of the two sets
unfoldable pub proposal_of : List RoleAssignment → List String → Proposal
unfolding filter contains_string add_all
proposal_of filtered desired =
    let current_set = add_all [] (role_ids filtered) in
    let desired_set = add_all [] desired in
    record {
      add = filter (λ d. not (contains_string current_set d)) desired_set;
      remove = filter (λ c. not (contains_string desired_set c)) current_set;
    }

-- computeProposed
unfoldable pub compute_proposed :
    System → ManagerBase → PrincipalRef → List String → Result Proposal
unfolding held_in_scope proposal_of
compute_proposed s b principal desired = do
  filtered ← held_in_scope s b principal
  ok (proposal_of filtered desired)

-- the binding values of a proposed assignment, with the pointers themselves
unfoldable pub pointer_bindings : ManagerBase → Map Value
unfolding put
pointer_bindings b =
    let team : Map Value = elim b.team_scope [
      | none ↦ []
      | some t ↦ put [] "team" (b.pointer_to t)
    ] in
    elim b.object_scope [ none ↦ team | some o ↦ put team "id" (b.pointer_to o) ]

-- current minus removed plus added
unfoldable pub proposed_assignments :
    ManagerBase → List RoleAssignment → Proposal → List RoleAssignment
unfolding pointer_bindings filter contains_string
proposed_assignments b filtered p =
    filter (λ c. not (contains_string p.remove c.role_id)) filtered
    ++ map (λ a. record { role_id = a; binding_values = pointer_bindings b }) p.add

-- the loop over the rules
unfoldable pub first_objection :
    List RoleAssignmentRule
    → System
    → ManagerBase
    → List RoleAssignment
    → List RoleAssignment
    → PrincipalRef
    → Option PrincipalRef
    → Option Error
first_objection [] s b current proposed assignee assigner = none
first_objection (rule ∷ rules) s b current proposed assignee assigner =
    let rest = first_objection rules s b current proposed assignee assigner in
    elim (rule s b current proposed assignee assigner) [ some e ↦ some e | none ↦ rest ]

abbrev pub failure {ℓ} : {A : Type ℓ} → Result A → (A → Option Error) → Option Error
failure (err e) k = some e
failure (ok a) k = k a

-- canMakeAssignmentChange
unfoldable pub can_make_assignment_change :
    System → RoleAssignmentManager → PrincipalRef → Option PrincipalRef → List String → Option Error
unfolding held_in_scope compute_proposed proposed_assignments first_objection
can_make_assignment_change s m assignee assigner desired =
    failure (held_in_scope s m.base assignee) λ filtered.
      failure (compute_proposed s m.base assignee desired) λ p.
        first_objection m.assignment_rules s m.base filtered
          (proposed_assignments m.base filtered p) assignee assigner

-- CanAddRoles
unfoldable pub can_add_roles :
    System → RoleAssignmentManager → PrincipalRef → Option PrincipalRef → List String → Option Error
unfolding can_make_assignment_change
can_add_roles s m assignee assigner add =
    failure (held_in_scope s m.base assignee)
      λ filtered. can_make_assignment_change s m assignee assigner (role_ids filtered ++ add)

-- CanRemoveRoles
unfoldable pub can_remove_roles :
    System → RoleAssignmentManager → PrincipalRef → Option PrincipalRef → List String → Option Error
unfolding can_make_assignment_change filter contains_string
can_remove_roles s m assignee assigner remove =
    failure (held_in_scope s m.base assignee) λ filtered.
      can_make_assignment_change s m assignee assigner
        (role_ids (filter (λ c. not (contains_string remove c.role_id)) filtered))

-- the binding values that assignRole and unassignRole write
unfoldable pub scope_bindings : ManagerBase → Map Value
unfolding put
scope_bindings b =
    let team : Map Value = elim b.team_scope [ none ↦ [] | some t ↦ put [] "team" (str t) ] in
    elim b.object_scope [ none ↦ team | some o ↦ put team "id" (str o) ]

-- assignRole and unassignRole
unfoldable pub assign_role : System → ManagerBase → PrincipalRef → String → System × Option Error
unfolding scope_bindings
assign_role s b principal role_id = System.assign_role s principal role_id (scope_bindings b)

unfoldable pub unassign_role : System → ManagerBase → PrincipalRef → String → System × Option Error
unfolding scope_bindings
unassign_role s b principal role_id = System.unassign_role s principal role_id (scope_bindings b)

-- the loops of AddRoles and RemoveRoles, which stop at an error and keep what was written
unfoldable pub assign_each :
    System → ManagerBase → PrincipalRef → List String → System × Option Error
unfolding assign_role
assign_each s b assignee [] = (s, none)
assign_each s b assignee (role_id ∷ roles) =
    let o = assign_role s b assignee role_id in
    let rest = assign_each o.0 b assignee roles in elim o.1 [ some e ↦ o | none ↦ rest ]

unfoldable pub unassign_each :
    System → ManagerBase → PrincipalRef → List String → System × Option Error
unfolding unassign_role
unassign_each s b assignee [] = (s, none)
unassign_each s b assignee (role_id ∷ roles) =
    let o = unassign_role s b assignee role_id in
    let rest = unassign_each o.0 b assignee roles in elim o.1 [ some e ↦ o | none ↦ rest ]

-- AddRoles
unfoldable pub add_roles :
    System
    → RoleAssignmentManager
    → PrincipalRef
    → List String
    → Option PrincipalRef
    → System × Option Error
add_roles s m assignee roles assigner = elim (can_add_roles s m assignee assigner roles) [
  | some e ↦ (s, some e)
  | none ↦ assign_each s m.base assignee roles
]

-- RemoveRoles
unfoldable pub remove_roles :
    System
    → RoleAssignmentManager
    → PrincipalRef
    → List String
    → Option PrincipalRef
    → System × Option Error
remove_roles s m assignee roles assigner = elim (can_remove_roles s m assignee assigner roles) [
  | some e ↦ (s, some e)
  | none ↦ unassign_each s m.base assignee roles
]

-- CanRemoveBulkUsers
unfoldable pub can_remove_bulk_users :
    System → ManagerBase → List PrincipalRemovalRule → List String → List String → Option Error
can_remove_bulk_users s b [] users groups = none
can_remove_bulk_users s b (rule ∷ rules) users groups =
    let rest = can_remove_bulk_users s b rules users groups in
    elim (rule s b users groups) [ some e ↦ some e | none ↦ rest ]
