-- ===== src/Bootstrap/State.antt =====
-- The state of bootstrapStore (bootstrap_store.go), its roles and the list of disabled built-in roles.
use go_permissions.Base.{
  String, Bool, true, false, not, List, [], ◌∷◌, Option, none, some, if◌then◌else◌, ◌==◌, filter,
}
use go_permissions.Base.Maps.{Map, get, put, delete}
use go_permissions.Base.Sets.{set_add, set_delete}
use go_permissions.Base.Sort.{sort_by, sort_strings}
use go_permissions.Base.Results.{
  Error, Result, ok, err, role_id_required, role_name_required, role_exists, role_not_found,
  parent_role_id_required, child_role_id_required, self_inheritance,
}
use go_permissions.Types.{Grant, Role, RoleAssignment}
use go_permissions.Hierarchy
use go_permissions.Hierarchy.{Hierarchy, add_role, add_edge}

pub record Store : Type 0 where
  pub roles : Map Role
  pub assignments : Map (List RoleAssignment)
  pub grants : List Grant
  pub disabled_built_in_roles : List String
  pub hierarchy : Hierarchy

-- newBootstrapStore
abbrev pub new_store : Store
new_store = record {
  roles = [];
  assignments = [];
  grants = [];
  disabled_built_in_roles = [];
  hierarchy = Hierarchy.empty;
}

role_values : Map Role → List Role
role_values [] = []
role_values ((_, r) ∷ m) = r ∷ role_values m

-- RoleDefinitions
unfoldable pub role_definitions : Store → List Role
unfolding role_values
role_definitions s = sort_by (λ (r : Role). r.id) (role_values s.roles)

-- RoleDefinition
unfoldable pub role_definition : Store → String → Result Role
role_definition s role_id = elim (get s.roles role_id) [
  | none ↦ err (role_not_found role_id)
  | some r ↦ ok r
]

abbrev pub has_role : Store → String → Bool
has_role s role_id = elim (get s.roles role_id) [ none ↦ false | some _ ↦ true ]

-- CreateRole
unfoldable pub create_role : Store → Role → Store × Option Error
create_role s role =
    if role.id == ""
    then (s, some role_id_required)
    else if role.name == ""
    then (s, some role_name_required)
    else if has_role s role.id
    then (s, some (role_exists role.id))
    else (
      record s { roles = put s.roles role.id role; hierarchy = add_role s.hierarchy role.id },
      none,
    )

-- UpdateRole
unfoldable pub update_role : Store → Role → Store × Option Error
update_role s role =
    if role.id == ""
    then (s, some role_id_required)
    else if role.name == ""
    then (s, some role_name_required)
    else if not (has_role s role.id)
    then (s, some (role_not_found role.id))
    else (record s { roles = put s.roles role.id role }, none)

-- the loop of DeleteRole over the assignments
unfoldable pub drop_role : Map (List RoleAssignment) → String → Map (List RoleAssignment)
unfolding filter
drop_role [] role_id = []
drop_role ((key, assignments) ∷ m) role_id =
    (key, filter (λ a. not (a.role_id == role_id)) assignments) ∷ drop_role m role_id

-- DeleteRole
unfoldable pub delete_role : Store → String → Store × Option Error
unfolding drop_role
delete_role s role_id =
    if role_id == ""
    then (s, some role_id_required)
    else if not (has_role s role_id)
    then (s, some (role_not_found role_id))
    else (
      record s {
        roles = delete s.roles role_id;
        assignments = drop_role s.assignments role_id;
        hierarchy = Hierarchy.delete_role s.hierarchy role_id;
      },
      none,
    )

-- AddRoleInheritance
unfoldable pub add_role_inheritance : Store → String → String → Store × Option Error
add_role_inheritance s parent child =
    if parent == ""
    then (s, some parent_role_id_required)
    else if child == ""
    then (s, some child_role_id_required)
    else if parent == child
    then (s, some self_inheritance)
    else (record s { hierarchy = add_edge s.hierarchy parent child }, none)

-- ExpandRoles
unfoldable pub expand_roles : Store → List String → List String
expand_roles s ids = Hierarchy.expand_roles s.hierarchy ids

-- DisableBuiltInRole
unfoldable pub disable_built_in_role : Store → String → Store × Option Error
disable_built_in_role s role_id =
    if role_id == ""
    then (s, some role_id_required)
    else (record s { disabled_built_in_roles = set_add s.disabled_built_in_roles role_id }, none)

-- EnableBuiltInRole
unfoldable pub enable_built_in_role : Store → String → Store × Option Error
enable_built_in_role s role_id =
    if role_id == ""
    then (s, some role_id_required)
    else (record s { disabled_built_in_roles = set_delete s.disabled_built_in_roles role_id }, none)

-- DisabledBuiltInRoles
unfoldable pub disabled_built_in_roles : Store → List String
disabled_built_in_roles s = sort_strings s.disabled_built_in_roles
