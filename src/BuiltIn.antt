-- ===== src/BuiltIn.antt =====
-- builtInRegistry (builtin_registry.go): the roles and grants that the program itself defines. The
-- lock is not modelled: a method is one step. A grant is a value, so `cloneGrant` is the identity.
pub mod Invariant
pub mod Grants
use go_permissions.Base.{
  ℕ, String, Bool, true, false, not, ◌&&◌, ◌||◌, List, [], ◌∷◌, ◌++◌, Option, none, some,
  if◌then◌else◌, ◌==◌, any, filter, contains_string,
}
use go_permissions.Base.Text.{has_prefix}
use go_permissions.Base.Maps.{Map, get, put}
use go_permissions.Base.Sets.{set_add}
use go_permissions.Base.Sort.{sort_by}
use go_permissions.Base.Results.{
  Error, role_id_required, not_built_in, role_name_required, parent_role_id_required,
  self_inheritance, owner_id_required, permission_name_required,
}
use go_permissions.Types.{
  Grant, Role, PrincipalRef, Request, principal_role, effect_allow, is_expired_at,
}
use go_permissions.Grants.Equivalence.{grants_equivalent}
use go_permissions.Hierarchy
use go_permissions.Hierarchy.{Hierarchy, add_role, add_edge}

abbrev pub built_in_prefix : String
built_in_prefix = "builtin."

pub record Registry : Type 0 where
  pub roles : Map Role
  pub grants : List Grant
  pub hierarchy : Hierarchy

-- newBuiltInRegistry
abbrev pub new_registry : Registry
new_registry = record { roles = []; grants = []; hierarchy = Hierarchy.empty }

-- RegisterRole; `none` is the nil error
unfoldable pub register_role : Registry → Role → Registry × Option Error
register_role r role =
    if role.id == ""
    then (r, some role_id_required)
    else if not (has_prefix role.id built_in_prefix)
    then (r, some (not_built_in role.id))
    else if role.name == ""
    then (r, some role_name_required)
    else (
      record r {
        roles = put r.roles role.id (record role { built_in = true });
        hierarchy = add_role r.hierarchy role.id;
      },
      none,
    )

-- Role
unfoldable pub role : Registry → String → Option Role
role r role_id = get r.roles role_id

values : Map Role → List Role
values [] = []
values ((_, v) ∷ m) = v ∷ values m

-- Roles
unfoldable pub roles_sorted : Registry → List Role
unfolding values
roles_sorted r = sort_by (λ (x : Role). x.id) (values r.roles)

-- AddRoleInheritance
unfoldable pub add_role_inheritance : Registry → String → String → Registry × Option Error
add_role_inheritance r parent child =
    if parent == "" || child == ""
    then (r, some parent_role_id_required)
    else if not (has_prefix parent built_in_prefix)
    then (r, some (not_built_in parent))
    else if not (has_prefix child built_in_prefix)
    then (r, some (not_built_in child))
    else if parent == child
    then (r, some self_inheritance)
    else (record r { hierarchy = add_edge r.hierarchy parent child }, none)

-- ExpandRoles
unfoldable pub expand_roles : Registry → List String → List String
expand_roles r ids = Hierarchy.expand_roles r.hierarchy ids

-- an empty team scope becomes "*"
unfoldable pub with_team_scope : Grant → Grant
with_team_scope g = record g { team_scope = if g.team_scope == "" then "*" else g.team_scope }

unfoldable pub add_new_grant : Registry → Grant → Registry
unfolding any
add_new_grant r g =
    if any (λ existing. grants_equivalent existing g) r.grants
    then r
    else record r { grants = r.grants ++ g ∷ [] }

-- AddGrant
unfoldable pub add_grant : Registry → Grant → Registry × Option Error
unfolding with_team_scope add_new_grant
add_grant r g =
    if g.owner_id == ""
    then (r, some owner_id_required)
    else if not (has_prefix g.owner_id built_in_prefix)
    then (r, some (not_built_in g.owner_id))
    else if g.permission_name == ""
    then (r, some permission_name_required)
    else (add_new_grant r (with_team_scope g), none)

-- the loop that builds `ownerSet`
unfoldable pub role_owners : List PrincipalRef → List String
unfolding set_add
role_owners [] = []
role_owners (o ∷ owners) =
    let rest = role_owners owners in if o.kind == principal_role then o.id ∷ rest else rest

-- GrantsForOwners, at the time `now`
unfoldable pub grants_for_owners : Registry → List PrincipalRef → Request → ℕ → List Grant
unfolding role_owners filter contains_string
grants_for_owners r owners req now =
    filter
      (λ g.
        contains_string (role_owners owners) g.owner_id
        && not (is_expired_at g now)
        && not (not (req.perm == "") && not (g.permission_name == req.perm)))
      r.grants

-- the loop of RolesWithPermission
collect_owners : List Grant → String → ℕ → List String → List String
collect_owners [] perm now found = found
collect_owners (g ∷ grants) perm now found = collect_owners grants perm now (
    if g.permission_name == perm && g.effect == effect_allow && not (is_expired_at g now)
    then set_add found g.owner_id
    else found)

-- RolesWithPermission
unfoldable pub roles_with_permission : Registry → String → ℕ → List String
unfolding collect_owners
roles_with_permission r perm now = collect_owners r.grants perm now []
