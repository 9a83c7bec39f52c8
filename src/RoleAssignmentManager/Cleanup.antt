-- ===== src/RoleAssignmentManager/Cleanup.antt =====
-- The bulk operations of role_assignment_manager.go. They collect errors by go-multierror, which is a
-- parameter.
pub mod Teams
use go_permissions.Base.{
  String, true, false, not, List, [], ◌∷◌, Option, none, some, if◌then◌else◌, contains_string,
}
use go_permissions.Base.Maps.{Map}
use go_permissions.Base.Results.{Error, Result, ok, err}
use go_permissions.Types.{
  RoleAssignment, RoleAssignmentHit, PrincipalRef, principal_user, principal_group, principal_team,
  validate_principal,
}
use go_permissions.System
use go_permissions.System.{System, role_assignments_for_principal, role_assignments_for_role_id}
use go_permissions.RoleAssignmentManager.{
  RoleAssignmentManager, MultiError, held_in_scope, role_ids, remove_roles, unassign_role,
  can_remove_bulk_users,
}
use go_permissions.RoleAssignmentManager.Scopes.{ManagerBase, filter_assignment_hits_by_scope}

-- a loop of RemoveBulkUsers; it returns at once where the assignments cannot be read
unfoldable pub remove_each :
    MultiError
    → RoleAssignmentManager
    → Option PrincipalRef
    → String
    → List String
    → System
    → Option Error
    → System × Result (Option Error)
unfolding held_in_scope remove_roles
remove_each me m assigner kind [] s merr = (s, ok merr)
remove_each me m assigner kind (id ∷ ids) s merr =
    let p : PrincipalRef = record { kind = kind; id = id } in
    elim (held_in_scope s m.base p) [
      | err e ↦ (s, err e)
      | ok filtered ↦
          let o = remove_roles s m p (role_ids filtered) assigner in
          remove_each me m assigner kind ids o.0
            (elim o.1 [ none ↦ merr | some e ↦ me.append merr (merr ∷ some e ∷ []) ])
    ]

-- RemoveBulkUsers
unfoldable pub remove_bulk_users :
    MultiError
    → System
    → RoleAssignmentManager
    → List String
    → List String
    → Option PrincipalRef
    → System × Option Error
unfolding can_remove_bulk_users remove_each
remove_bulk_users me s m users groups assigner =
    elim (can_remove_bulk_users s m.base m.remove_rules users groups) [
      | some e ↦ (s, some e)
      | none ↦
          let o = remove_each me m assigner principal_user users s none in
          elim o.1 [
            | err e ↦ (o.0, some e)
            | ok merr ↦
                let o' = remove_each me m assigner principal_group groups o.0 merr in
                elim o'.1 [ err e ↦ (o'.0, some e) | ok merr' ↦ (o'.0, me.error_or_nil merr') ]
          ]
    ]

-- the error of one step, collected
abbrev pub collect : MultiError → Option Error → Option Error → Option Error
collect me merr none = merr
collect me merr (some e) = me.append merr (some e ∷ [])

-- the inner loop of CleanupAllRoleAssignments
unfoldable pub unassign_hits :
    MultiError
    → ManagerBase
    → String
    → List RoleAssignmentHit
    → System
    → Option Error
    → System × Option Error
unfolding unassign_role
unassign_hits me b role_id [] s merr = (s, merr)
unassign_hits me b role_id (hit ∷ hits) s merr =
    let o = unassign_role s b hit.principal role_id in
    unassign_hits me b role_id hits o.0 (collect me merr o.1)

-- the outer loop
unfoldable pub cleanup_roles :
    MultiError → ManagerBase → List String → System → Option Error → System × Option Error
unfolding unassign_hits
cleanup_roles me b [] s merr = (s, merr)
cleanup_roles me b (role_id ∷ roles) s merr = elim (role_assignments_for_role_id s role_id) [
  | err e ↦ cleanup_roles me b roles s (me.append merr (some e ∷ []))
  | ok assignments ↦
      let o =
        unassign_hits me b role_id
          (filter_assignment_hits_by_scope assignments b.team_scope b.object_scope) s merr in
      cleanup_roles me b roles o.0 o.1
]

-- CleanupAllRoleAssignments
unfoldable pub cleanup_all_role_assignments :
    MultiError → System → ManagerBase → System × Option Error
unfolding cleanup_roles
cleanup_all_role_assignments me s b =
    let o = cleanup_roles me b b.managed_roles s none in (o.0, me.error_or_nil o.1)

-- one round of the loop of CleanupTeamRoleAssignments
unfoldable pub unassign_if_managed :
    MultiError
    → List String
    → PrincipalRef
    → RoleAssignment
    → System
    → Option Error
    → System × Option Error
unfolding contains_string
unassign_if_managed me managed team a s merr =
    let o = System.unassign_role s team a.role_id a.binding_values in
    if not (contains_string managed a.role_id) then (s, merr) else (o.0, collect me merr o.1)

unfoldable pub unassign_managed :
    MultiError
    → List String
    → PrincipalRef
    → List RoleAssignment
    → System
    → Option Error
    → System × Option Error
unfolding unassign_if_managed
unassign_managed me managed team [] s merr = (s, merr)
unassign_managed me managed team (a ∷ assignments) s merr =
    let o = unassign_if_managed me managed team a s merr in
    unassign_managed me managed team assignments o.0 o.1

-- CleanupTeamRoleAssignments
unfoldable pub cleanup_team_role_assignments :
    MultiError → System → ManagerBase → String → System × Option Error
unfolding unassign_managed
cleanup_team_role_assignments me s b team_id =
    let team : PrincipalRef = record { kind = principal_team; id = team_id } in
    elim (validate_principal team) [
      | err e ↦ (s, some e)
      | ok _ ↦ elim (role_assignments_for_principal s team) [
        | err e ↦ (s, some e)
        | ok assignments ↦
            let o = unassign_managed me b.managed_roles team assignments s none in
            (o.0, me.error_or_nil o.1)
      ]
    ]
