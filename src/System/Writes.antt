-- ===== src/System/Writes.antt =====
-- A service's history: the methods of the Service (service.go) that change it or its store, with their
-- arguments, in any order. SetStore has `nil` here, which stands for a new store; any other store it
-- brings holds what it holds.
use go_permissions.Base.{ℕ, String, List, [], ◌∷◌, Option, none}
use go_permissions.Base.Maps.{Map}
use go_permissions.Base.Results.{Error}
use go_permissions.Types.{ℤ, Grant, Role, PrincipalRef, Value}
use go_permissions.Service.State.{IdentityProvider}
use go_permissions.System.{
  System, to_built_ins, create_grant, create_grants, ensure_grant_for_owner, disable_built_in_role,
  enable_built_in_role, create_role, add_role_inheritance, update_role, delete_role, assign_role,
  unassign_role, delete_grants_for_owner,
}
use go_permissions.System.Seeding.{
  ensure_synthetic_roles, save_built_ins, add_built_in_role, add_built_in_team_role,
}
use go_permissions.System.Batches.{ensure_grants_for_owners}
use go_permissions.System.Shortcuts.{
  allow_user, allow_user_until, allow_user_for, deny_user, deny_user_until, deny_user_for,
  allow_role, allow_role_until, allow_role_for, assign_role_to_user, add_default_grant,
}
use go_permissions.System.Settings.{
  set_public_role_id, set_authenticated_role_id, set_admin_role_id, set_admin_group_id,
  set_synthetic_role_ids, set_built_in_grants, set_identity_provider, set_store,
}

-- the writes of the service, with their arguments
pub data Write : Type 0 where
  grant : Grant → Write
  grants : List Grant → Write
  ensure_grant : Grant → ℕ → Write
  ensure_grants : List Grant → ℕ → Write
  default_grant : String → String → String → Write
  disable : String → Write
  enable : String → Write
  new_role : Role → Write
  inherit : String → String → Write
  change_role : Role → Write
  drop_role : String → Write
  assign : PrincipalRef → String → Map Value → Write
  unassign : PrincipalRef → String → Map Value → Write
  drop_grants : String → String → Write
  synthetic : Write
  save : List Grant → Write
  built_in_role : Role → Write
  built_in_team_role : Role → Write
  allow deny allow_to_role : String → String → Option String → Write
  allow_until deny_until allow_role_to : String → String → Option String → ℕ → Write
  allow_for deny_for allow_role_within : String → String → Option String → ℤ → ℕ → Write
  assign_user : String → String → Map Value → Write
  set_public set_authenticated set_admin set_group : String → Write
  set_ids : String → String → String → Write
  set_grants : List Grant → Write
  set_identity : Option IdentityProvider → Write
  reset_store : Write

unfoldable pub write : System → Write → System × Option Error
write s (grant g) = create_grant s g
write s (grants gs) = create_grants s gs
write s (ensure_grant g now) = ensure_grant_for_owner s g now
write s (ensure_grants gs now) = ensure_grants_for_owners s gs now
write s (default_grant id perm team) = to_built_ins s (add_default_grant s.built_ins id perm team)
write s (disable id) = disable_built_in_role s id
write s (enable id) = enable_built_in_role s id
write s (new_role role) = create_role s role
write s (inherit parent child) = add_role_inheritance s parent child
write s (change_role role) = update_role s role
write s (drop_role id) = delete_role s id
write s (assign p id values) = assign_role s p id values
write s (unassign p id values) = unassign_role s p id values
write s (drop_grants kind id) = delete_grants_for_owner s kind id
write s synthetic = ensure_synthetic_roles s
write s (save gs) = save_built_ins s gs
write s (built_in_role role) = add_built_in_role s role
write s (built_in_team_role role) = add_built_in_team_role s role
write s (allow id perm object) = allow_user s id perm object
write s (deny id perm object) = deny_user s id perm object
write s (allow_to_role id perm object) = allow_role s id perm object
write s (allow_until id perm object at) = allow_user_until s id perm object at
write s (deny_until id perm object at) = deny_user_until s id perm object at
write s (allow_role_to id perm object at) = allow_role_until s id perm object at
write s (allow_for id perm object ttl now) = allow_user_for s id perm object ttl now
write s (deny_for id perm object ttl now) = deny_user_for s id perm object ttl now
write s (allow_role_within id perm object ttl now) = allow_role_for s id perm object ttl now
write s (assign_user id role_id values) = assign_role_to_user s id role_id values
write s (set_public id) = (set_public_role_id s id, none)
write s (set_authenticated id) = (set_authenticated_role_id s id, none)
write s (set_admin id) = (set_admin_role_id s id, none)
write s (set_group id) = (set_admin_group_id s id, none)
write s (set_ids public authenticated admin) =
    (set_synthetic_role_ids s public authenticated admin, none)
write s (set_grants gs) = (set_built_in_grants s gs, none)
write s (set_identity identity) = (set_identity_provider s identity, none)
write s reset_store = (set_store s none, none)

unfoldable pub write_all : System → List Write → System
write_all s [] = s
write_all s (w ∷ ws) = write_all (write s w).0 ws
