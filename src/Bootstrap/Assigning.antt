-- ===== src/Bootstrap/Assigning.antt =====
-- The role assignments of bootstrapStore (bootstrap_store.go).
use go_permissions.Base.{
  String, Bool, true, false, not, ◌&&◌, List, [], ◌∷◌, ◌++◌, Option, none, some, if◌then◌else◌,
  ◌==◌, any, filter, length, nat_eq, is_empty,
}
use go_permissions.Base.Maps.{Map, get, put, delete}
use go_permissions.Base.Results.{
  Error, Result, ok, err, ◌>>=◌, role_id_required, role_not_found, role_not_assigned,
}
use go_permissions.Types.{
  Role, RoleAssignment, RoleAssignmentHit, PrincipalRef, Value, sprint, validate_principal,
}
use go_permissions.Types.Principals.{principal_key, parse_principal_key}
use go_permissions.Grants.Equivalence.{binding_values_equal}
use go_permissions.Bootstrap.State.{Store, has_role}

-- the value list under a principal's key; a missing key reads as nil
unfoldable pub assigned : Map (List RoleAssignment) → String → List RoleAssignment
assigned m key = elim (get m key) [ none ↦ [] | some as' ↦ as' ]

-- RoleAssignmentsForPrincipal
unfoldable pub role_assignments_for_principal : Store → PrincipalRef → Result (List RoleAssignment)
unfolding assigned
role_assignments_for_principal s principal = do
  _ ← validate_principal principal
  ok (assigned s.assignments (principal_key principal))

unfoldable pub hits_of : String → PrincipalRef → List RoleAssignment → List RoleAssignmentHit
hits_of role_id p [] = []
hits_of role_id p (a ∷ as') =
    let rest = hits_of role_id p as' in
    if a.role_id == role_id
    then record { role_id = role_id; binding_values = a.binding_values; principal = p } ∷ rest
    else rest

collect_hits : Map (List RoleAssignment) → String → Result (List RoleAssignmentHit)
unfolding hits_of
collect_hits [] role_id = ok []
collect_hits ((key, assignments) ∷ m) role_id = do
  p ← parse_principal_key key
  rest ← collect_hits m role_id
  ok (hits_of role_id p assignments ++ rest)

-- RoleAssignmentsForRoleID
unfoldable pub role_assignments_for_role_id : Store → String → Result (List RoleAssignmentHit)
unfolding collect_hits
role_assignments_for_role_id s role_id = collect_hits s.assignments role_id

-- the loop of `mapEquals`: it compares the printed values
unfoldable pub prints_in : Map Value → Map Value → Bool
prints_in [] right = true
prints_in ((k, v) ∷ left) right = elim (get right k) [
  | none ↦ false
  | some w ↦ sprint v == sprint w && prints_in left right
]

-- mapEquals
unfoldable pub map_equals : Map Value → Map Value → Bool
unfolding prints_in
map_equals left right = if nat_eq (length left) (length right) then prints_in left right else false

-- the test of the loop of AssignRole
unfoldable pub same_assignment : RoleAssignment → RoleAssignment → Bool
unfolding map_equals
same_assignment a b = a.role_id == b.role_id && map_equals a.binding_values b.binding_values

-- the end of AssignRole, for a role that exists
unfoldable pub add_assignment :
    Map (List RoleAssignment) → String → RoleAssignment → Map (List RoleAssignment)
unfolding same_assignment assigned any
add_assignment m key a =
    if any (λ existing. same_assignment existing a) (assigned m key)
    then m
    else put m key (assigned m key ++ a ∷ [])

-- AssignRole; `built_ins` are the built-in roles that the service passes
unfoldable pub assign_role :
    Store → PrincipalRef → String → List Role → Map Value → Store × Option Error
unfolding add_assignment any
assign_role s principal role_id built_ins binding_values = elim (validate_principal principal) [
  | err e ↦ (s, some e)
  | ok _ ↦
      if role_id == ""
      then (s, some role_id_required)
      else if not (any (λ (r : Role). r.id == role_id) built_ins) && not (has_role s role_id)
      then (s, some (role_not_found role_id))
      else (
        record s {
          assignments =
              add_assignment s.assignments (principal_key principal)
                (record { role_id = role_id; binding_values = binding_values });
        },
        none,
      )
]

-- the test of the loop of UnassignRole
unfoldable pub is_assignment : String → Map Value → RoleAssignment → Bool
is_assignment role_id binding_values a =
    a.role_id == role_id && binding_values_equal a.binding_values binding_values

-- UnassignRole
unfoldable pub unassign_role : Store → PrincipalRef → String → Map Value → Store × Option Error
unfolding is_assignment assigned filter any
unassign_role s principal role_id binding_values = elim (validate_principal principal) [
  | err e ↦ (s, some e)
  | ok _ ↦
      let key = principal_key principal in
      let assignments = assigned s.assignments key in
      let filtered = filter (λ a. not (is_assignment role_id binding_values a)) assignments in
      if role_id == ""
      then (s, some role_id_required)
      else if not (any (is_assignment role_id binding_values) assignments)
      then (s, some (role_not_assigned role_id key))
      else if is_empty filtered
      then (record s { assignments = delete s.assignments key }, none)
      else (record s { assignments = put s.assignments key filtered }, none)
]
