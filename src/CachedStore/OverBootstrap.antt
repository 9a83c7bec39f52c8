-- ===== src/CachedStore/OverBootstrap.antt =====
-- The bootstrap store as the base of a caching store: a write that fails changes nothing.
use go_permissions.Base.{◌≡◌, none, some, arith}
use go_permissions.Base.Results.{Error, ok}
use go_permissions.Bootstrap
use go_permissions.CachedStore.{PermissionStore}
use go_permissions.CachedStore.History.{
  Write, new_grant, assign, unassign, new_role, set_role, drop_role, inherit, drop_grants, disable,
  enable, change,
}

abbrev pub bootstrap_base : PermissionStore Bootstrap.Store
bootstrap_base = record {
  role_definitions = λ s now. ok (Bootstrap.role_definitions s);
  role_definition = λ s role_id now. Bootstrap.role_definition s role_id;
  create_role = Bootstrap.create_role;
  update_role = Bootstrap.update_role;
  delete_role = Bootstrap.delete_role;
  add_role_inheritance = Bootstrap.add_role_inheritance;
  role_assignments_for_principal = λ s p now. Bootstrap.role_assignments_for_principal s p;
  role_assignments_for_role_id = λ s role_id now. Bootstrap.role_assignments_for_role_id s role_id;
  assign_role = Bootstrap.assign_role;
  unassign_role = λ s p role_id built_ins values. Bootstrap.unassign_role s p role_id values;
  grants_for_principal = Bootstrap.grants_for_principal;
  grants_for_owners = Bootstrap.grants_for_owners;
  create_grant = Bootstrap.create_grant;
  principals_with_grant = Bootstrap.principals_with_grant;
  expand_roles = λ s ids now. ok (Bootstrap.expand_roles s ids);
  delete_grants_for_owner = λ s kind id. (Bootstrap.delete_grants_for_owner s kind id, none);
  disable_built_in_role = Bootstrap.disable_built_in_role;
  enable_built_in_role = Bootstrap.enable_built_in_role;
  disabled_built_in_roles = λ s now. ok (Bootstrap.disabled_built_in_roles s);
  list_grants = λ s q now. Bootstrap.list_grants s q;
}

module _ (s : Bootstrap.Store) where
  pub bootstrap-IsAtomic :
      (w : Write) (e : Error)
      → (change bootstrap_base s w).1 ≡ some e
      → (change bootstrap_base s w).0 ≡ s
  unfolding Bootstrap.create_grant Bootstrap.assign_role Bootstrap.unassign_role
      Bootstrap.create_role Bootstrap.update_role Bootstrap.delete_role
      Bootstrap.add_role_inheritance Bootstrap.disable_built_in_role Bootstrap.enable_built_in_role
  bootstrap-IsAtomic (new_grant g) e = ground arith
  bootstrap-IsAtomic (assign p i bs vs) e = ground arith
  bootstrap-IsAtomic (unassign p i bs vs) e = ground arith
  bootstrap-IsAtomic (new_role r) e = ground arith
  bootstrap-IsAtomic (set_role r) e = ground arith
  bootstrap-IsAtomic (drop_role i) e = ground arith
  bootstrap-IsAtomic (inherit p c) e = ground arith
  bootstrap-IsAtomic (drop_grants k i) e = ground arith
  bootstrap-IsAtomic (disable i) e = ground arith
  bootstrap-IsAtomic (enable i) e = ground arith
