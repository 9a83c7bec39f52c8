-- ===== src/System.antt =====
-- The writing methods of the Service (service.go) over the store that `New` gives it, the bootstrap
-- store. A write returns the new system and its error, `none` being nil.
pub mod Seeding
pub mod Soundness
pub mod History
pub mod Switches
pub mod Ensuring
pub mod Batches
pub mod Shortcuts
pub mod Settings
pub mod Restarting
pub mod Writes
pub mod Keeping
use go_permissions.Base.{
  ℕ, String, Bool, true, false, not, ◌&&◌, ◌||◌, List, [], ◌∷◌, ◌++◌, Option, none, some,
  if◌then◌else◌, ◌==◌, any, contains_string, is_empty,
}
use go_permissions.Base.Text.{has_prefix, concat}
use go_permissions.Base.Maps.{Map}
use go_permissions.Base.Results.{
  Error, Result, ok, err, role_id_required, role_name_required, cannot_update_built_in,
  cannot_delete_built_in, cannot_delete_grants, role_owned_only, wrapped,
}
use go_permissions.Types.{
  Grant, Role, RoleAssignment, RoleAssignmentHit, PrincipalRef, Value, str, principal_role,
  effect_allow, is_expired_at, validate_principal,
}
use go_permissions.Grants.Equivalence.{grants_equivalent}
use go_permissions.BuiltIn
use go_permissions.BuiltIn.{Registry, built_in_prefix}
use go_permissions.Bootstrap
use go_permissions.Bootstrap.{Store, grant_error}
use go_permissions.Service.State.{
  Service, IdentityProvider, DisabledCache, invalidate_disabled_cache,
}
use go_permissions.Service.Stores.{bootstrap_permission_store}

-- the state of a service and of its store
pub record System : Type 0 where
  pub identity : Option IdentityProvider
  pub store : Store
  pub built_ins : Registry
  pub cache : DisabledCache
  pub public_role_id : String
  pub authenticated_role_id : String
  pub admin_role_id : String
  pub admin_group_id : String

-- what an evaluation at `now` works on
abbrev pub service_at : System → ℕ → Service
service_at s now = record {
  identity = s.identity;
  permissions = bootstrap_permission_store s.store now;
  built_ins = s.built_ins;
  public_role_id = s.public_role_id;
  authenticated_role_id = s.authenticated_role_id;
  admin_role_id = s.admin_role_id;
  admin_group_id = s.admin_group_id;
}

-- a call that the service passes to its store, or to its registry
abbrev pub to_store : System → Store × Option Error → System × Option Error
to_store s (store, e) = (record s { store = store }, e)

abbrev pub to_built_ins : System → Registry × Option Error → System × Option Error
to_built_ins s (built_ins, e) = (record s { built_ins = built_ins }, e)

-- CreateGrant
unfoldable pub create_grant : System → Grant → System × Option Error
create_grant s g = elim (grant_error g) [
  | some e ↦ (s, some e)
  | none ↦
      if g.owner_kind == principal_role && has_prefix g.owner_id built_in_prefix
      then to_built_ins s (BuiltIn.add_grant s.built_ins g)
      else to_store s (Bootstrap.create_grant s.store g)
]

-- the loop of CreateGrants that validates
unfoldable pub first_error : List Grant → Option Error
first_error [] = none
first_error (g ∷ grants) =
    let rest = first_error grants in elim (grant_error g) [ some e ↦ some e | none ↦ rest ]

-- CreateGrants; the bootstrap store is a BulkGrantStore
unfoldable pub create_grants : System → List Grant → System × Option Error
unfolding first_error
create_grants s grants = if is_empty grants then (s, none) else elim (first_error grants) [
  | some e ↦ (s, some e)
  | none ↦ to_store s (Bootstrap.create_grants s.store grants)
]

-- EnsureGrantForOwner
unfoldable pub ensure_grant_for_owner : System → Grant → ℕ → System × Option Error
ensure_grant_for_owner s g now = elim (grant_error g) [
  | some e ↦ (s, some e)
  | none ↦
      let owner : PrincipalRef = record { kind = g.owner_kind; id = g.owner_id } in
      elim (validate_principal owner) [
        | err e ↦ (s, some e)
        | ok _ ↦ elim (Bootstrap.grants_for_principal s.store owner now) [
          | err e ↦ (s, some e)
          | ok existing ↦
              if any (λ current. not (is_expired_at current now) && grants_equivalent current g)
                existing
              then (s, none)
              else to_store s (Bootstrap.create_grant s.store g)
        ]
      ]
]

-- DisableBuiltInRole and EnableBuiltInRole
unfoldable pub after_switch : System → Store × Option Error → System × Option Error
after_switch s (store, some e) = (record s { store = store }, some e)
after_switch s (store, none) =
    (record s { store = store; cache = invalidate_disabled_cache s.cache }, none)

unfoldable pub disable_built_in_role : System → String → System × Option Error
unfolding after_switch
disable_built_in_role s role_id = after_switch s (Bootstrap.disable_built_in_role s.store role_id)

unfoldable pub enable_built_in_role : System → String → System × Option Error
unfolding after_switch
enable_built_in_role s role_id = after_switch s (Bootstrap.enable_built_in_role s.store role_id)

-- CreateRole
unfoldable pub create_role : System → Role → System × Option Error
create_role s role =
    if has_prefix role.id built_in_prefix
    then to_built_ins s (BuiltIn.register_role s.built_ins role)
    else to_store s (Bootstrap.create_role s.store role)

-- AddRoleInheritance
unfoldable pub add_role_inheritance : System → String → String → System × Option Error
add_role_inheritance s parent child =
    if has_prefix parent built_in_prefix && has_prefix child built_in_prefix
    then to_built_ins s (BuiltIn.add_role_inheritance s.built_ins parent child)
    else to_store s (Bootstrap.add_role_inheritance s.store parent child)

-- UpdateRole
unfoldable pub update_role : System → Role → System × Option Error
update_role s role =
    if has_prefix role.id built_in_prefix
    then (s, some (cannot_update_built_in role.id))
    else to_store s (Bootstrap.update_role s.store role)

-- DeleteRole
unfoldable pub delete_role : System → String → System × Option Error
delete_role s role_id =
    if has_prefix role_id built_in_prefix
    then (s, some (cannot_delete_built_in role_id))
    else to_store s (Bootstrap.delete_role s.store role_id)

-- AssignRole and UnassignRole
unfoldable pub assign_role : System → PrincipalRef → String → Map Value → System × Option Error
assign_role s principal role_id values =
    to_store s
      (Bootstrap.assign_role s.store principal role_id (BuiltIn.roles_sorted s.built_ins) values)

unfoldable pub unassign_role : System → PrincipalRef → String → Map Value → System × Option Error
unassign_role s principal role_id values =
    to_store s (Bootstrap.unassign_role s.store principal role_id values)

-- RoleAssignmentsForPrincipal and RoleAssignmentsForRoleID
unfoldable pub role_assignments_for_principal : System → PrincipalRef → Result (List RoleAssignment)
role_assignments_for_principal s principal =
    Bootstrap.role_assignments_for_principal s.store principal

unfoldable pub role_assignments_for_role_id : System → String → Result (List RoleAssignmentHit)
role_assignments_for_role_id s role_id = Bootstrap.role_assignments_for_role_id s.store role_id

-- DeleteGrantsForOwner
unfoldable pub delete_grants_for_owner : System → String → String → System × Option Error
delete_grants_for_owner s kind id =
    if kind == principal_role && has_prefix id built_in_prefix
    then (s, some (cannot_delete_grants id))
    else (record s { store = Bootstrap.delete_grants_for_owner s.store kind id }, none)
