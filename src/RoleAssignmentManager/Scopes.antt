-- ===== src/RoleAssignmentManager/Scopes.antt =====
-- The scope of a role assignment manager and its two filters (role_assignment_manager.go).
use go_permissions.Base.{
  String, Bool, true, false, ◌&&◌, List, Option, none, some, if◌then◌else◌, ◌==◌, filter,
}
use go_permissions.Base.Maps.{Map, get}
use go_permissions.Types.{RoleAssignment, RoleAssignmentHit, Value, str}

-- The service is passed apart from the base. `pointer_to` is what a `*string` is as a value.
pub record ManagerBase : Type 0 where
  pub managed_roles : List String
  pub object_scope : Option String
  pub team_scope : Option String
  pub pointer_to : String → Value

-- Go's `==` of a string and an `any`
unfoldable pub is_text : String → Value → Bool
is_text s (str t) = s == t
is_text s _ = false

-- the test of one scope against the binding under its key
unfoldable pub fits_scope : Option String → String → Map Value → Bool
unfolding is_text
fits_scope scope key values = elim scope [
  | none ↦ true
  | some s ↦
      if s == "*" then true else elim (get values key) [ none ↦ false | some v ↦ is_text s v ]
]

unfoldable pub in_scope : Option String → Option String → Map Value → Bool
unfolding fits_scope
in_scope team_scope obj_scope values =
    fits_scope team_scope "team" values && fits_scope obj_scope "id" values

-- filterAssignmentHitsByScope
unfoldable pub filter_assignment_hits_by_scope :
    List RoleAssignmentHit → Option String → Option String → List RoleAssignmentHit
unfolding in_scope filter
filter_assignment_hits_by_scope hits team_scope obj_scope =
    filter (λ (hit : RoleAssignmentHit). in_scope team_scope obj_scope hit.binding_values) hits

-- filterAssignmentsByScope
unfoldable pub filter_assignments_by_scope :
    List RoleAssignment → Option String → Option String → List RoleAssignment
unfolding in_scope filter
filter_assignments_by_scope role_assignments team_scope obj_scope =
    filter (λ (ra : RoleAssignment). in_scope team_scope obj_scope ra.binding_values)
      role_assignments
