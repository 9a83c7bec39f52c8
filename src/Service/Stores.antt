-- ===== src/Service/Stores.antt =====
-- The bootstrap store as the service's PermissionStore, at one moment.
use go_permissions.Base.{ℕ}
use go_permissions.Base.Results.{ok}
use go_permissions.Bootstrap
use go_permissions.Bootstrap.{Store}
use go_permissions.Service.State.{PermissionStore}

-- `var _ PermissionStore = (*bootstrapStore)(nil)`
abbrev pub bootstrap_permission_store : Store → ℕ → PermissionStore
bootstrap_permission_store s now = record {
  role_definition = Bootstrap.role_definition s;
  role_assignments_for_principal = Bootstrap.role_assignments_for_principal s;
  grants_for_owners = λ owners req. Bootstrap.grants_for_owners s owners req now;
  expand_roles = λ ids. ok (Bootstrap.expand_roles s ids);
  disabled_built_in_roles = ok (Bootstrap.disabled_built_in_roles s);
}
