-- ===== src/System/History.antt =====
-- What any sequence of writes of the service keeps.
use go_permissions.Base.{List, [], ◌∷◌, none, some, refl}
use go_permissions.Base.Maps.{get}
use go_permissions.Types.{str, principal_role, principal_user, effect_allow, effect_deny}
use go_permissions.System.{System}
use go_permissions.System.Seeding.{role_grant, add_built_in_role, add_built_in_team_role}
use go_permissions.System.Shortcuts.{
  plain_grant, allow_user, allow_user_until, allow_user_for, deny_user, deny_user_until,
  deny_user_for, allow_role, allow_role_until, allow_role_for, add_default_grant,
}
use go_permissions.System.Settings.{
  set_public_role_id, set_authenticated_role_id, set_admin_role_id, set_admin_group_id,
  set_synthetic_role_ids, set_built_in_grants, set_identity_provider, set_store,
}
use go_permissions.System.Writes.{
  Write, write, write_all, grant, grants, ensure_grant, ensure_grants, default_grant, disable,
  enable, new_role, inherit, change_role, drop_role, assign, unassign, drop_grants, synthetic, save,
  built_in_role, built_in_team_role, allow, deny, allow_to_role, allow_until, deny_until,
  allow_role_to, allow_for, deny_for, allow_role_within, assign_user, set_public, set_authenticated,
  set_admin, set_group, set_ids, set_grants, set_identity, reset_store,
}
use go_permissions.System.Keeping.{
  ensure_synthetic_roles-Sound, save_built_ins-Sound, add_seeded-Sound,
  ensure_grants_for_owners-Sound, lasting-Sound, assign_role_to_user-Sound,
  add_default_grant-IsValid,
}
use go_permissions.System.Soundness.{
  IsSound, Sound, registry_keeps, create_grant-Sound, create_grants-Sound,
  ensure_grant_for_owner-Sound, disable_built_in_role-Sound, enable_built_in_role-Sound,
  create_role-Sound, add_role_inheritance-Sound, update_role-Sound, delete_role-Sound,
  assign_role-Sound, unassign_role-Sound, delete_grants_for_owner-Sound,
}

pub write-Sound : (s : System) (w : Write) → IsSound s → Sound (write s w)
unfolding write add_built_in_role add_built_in_team_role allow_user allow_user_until allow_user_for
    deny_user deny_user_until deny_user_for allow_role allow_role_until allow_role_for
    set_public_role_id set_authenticated_role_id set_admin_role_id set_admin_group_id
    set_synthetic_role_ids set_built_in_grants set_identity_provider set_store get
write-Sound s (grant g) v = create_grant-Sound s v g
write-Sound s (grants gs) v = create_grants-Sound s v gs
write-Sound s (ensure_grant g now) v = ensure_grant_for_owner-Sound s v g now
write-Sound s (ensure_grants gs now) v = ensure_grants_for_owners-Sound s gs now v
write-Sound s (default_grant id perm team) v =
    registry_keeps s v (add_default_grant s.built_ins id perm team)
      (add_default_grant-IsValid s.built_ins id perm team v.registry)
write-Sound s (disable id) v = disable_built_in_role-Sound s v id
write-Sound s (enable id) v = enable_built_in_role-Sound s v id
write-Sound s (new_role role) v = create_role-Sound s v role
write-Sound s (inherit parent child) v = add_role_inheritance-Sound s v parent child
write-Sound s (change_role role) v = update_role-Sound s v role
write-Sound s (drop_role id) v = delete_role-Sound s v id
write-Sound s (assign p id values) v = assign_role-Sound s v p id values
write-Sound s (unassign p id values) v = unassign_role-Sound s v p id values
write-Sound s (drop_grants kind id) v = delete_grants_for_owner-Sound s v kind id
write-Sound s synthetic v = ensure_synthetic_roles-Sound s v
write-Sound s (save gs) v = save_built_ins-Sound s gs v
write-Sound s (built_in_role role) v = add_seeded-Sound s role (λ id. role_grant id "*" none) v
write-Sound s (built_in_team_role role) v =
    add_seeded-Sound s role (λ id. role_grant id "?team" (some (("team", str "required") ∷ []))) v
write-Sound s (allow id perm object) v =
    create_grant-Sound s v (plain_grant principal_user id effect_allow perm object none)
write-Sound s (deny id perm object) v =
    create_grant-Sound s v (plain_grant principal_user id effect_deny perm object none)
write-Sound s (allow_to_role id perm object) v =
    create_grant-Sound s v (plain_grant principal_role id effect_allow perm object none)
write-Sound s (allow_until id perm object at) v =
    create_grant-Sound s v (plain_grant principal_user id effect_allow perm object (some at))
write-Sound s (deny_until id perm object at) v =
    create_grant-Sound s v (plain_grant principal_user id effect_deny perm object (some at))
write-Sound s (allow_role_to id perm object at) v =
    create_grant-Sound s v (plain_grant principal_role id effect_allow perm object (some at))
write-Sound s (allow_for id perm object ttl now) v =
    lasting-Sound s ttl now (allow_user_until s id perm object) v λ at.
      create_grant-Sound s v (plain_grant principal_user id effect_allow perm object (some at))
write-Sound s (deny_for id perm object ttl now) v =
    lasting-Sound s ttl now (deny_user_until s id perm object) v
      λ at. create_grant-Sound s v (plain_grant principal_user id effect_deny perm object (some at))
write-Sound s (allow_role_within id perm object ttl now) v =
    lasting-Sound s ttl now (allow_role_until s id perm object) v λ at.
      create_grant-Sound s v (plain_grant principal_role id effect_allow perm object (some at))
write-Sound s (assign_user id role_id values) v = assign_role_to_user-Sound s id role_id values v
write-Sound s (set_public id) v = record { registry = v.registry; apart = v.apart }
write-Sound s (set_authenticated id) v = record { registry = v.registry; apart = v.apart }
write-Sound s (set_admin id) v = record { registry = v.registry; apart = v.apart }
write-Sound s (set_group id) v = record { registry = v.registry; apart = v.apart }
write-Sound s (set_ids public authenticated admin) v = record {
  registry = v.registry;
  apart = v.apart;
}
write-Sound s (set_grants gs) v = save_built_ins-Sound s gs v
write-Sound s (set_identity identity) v = record { registry = v.registry; apart = v.apart }
write-Sound s reset_store v = record { registry = v.registry; apart = λ id h. refl }

-- Any sequence of calls of the service's writing methods, SetStore with another store aside, failing calls among them, keeps the registry
-- valid, and keeps roles with an ID of the registry's kind out of the store.
pub write_all-IsSound : (s : System) (ws : List Write) → IsSound s → IsSound (write_all s ws)
unfolding write_all
write_all-IsSound s [] v = v
write_all-IsSound s (w ∷ ws) v = write_all-IsSound (write s w).0 ws (write-Sound s w v)
