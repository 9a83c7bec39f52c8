-- ===== src/System/Settings.antt =====
-- The settings of the Service (service.go): its synthetic roles, its store, its identity provider and its
-- built-in grants.
use go_permissions.Base.{String, List, Option, none, some, if◌then◌else◌, ◌==◌}
use go_permissions.Base.Text.{trim_space}
use go_permissions.Types.{Grant}
use go_permissions.Bootstrap
use go_permissions.Bootstrap.{Store}
use go_permissions.Service.State.{IdentityProvider, invalidate_disabled_cache}
use go_permissions.System.{System}
use go_permissions.System.Seeding.{save_built_ins}

-- SetPublicRoleID, SetAuthenticatedRoleID, SetAdminRoleID, SetAdminGroupID
unfoldable pub set_public_role_id : System → String → System
set_public_role_id s id = record s { public_role_id = trim_space id }

unfoldable pub set_authenticated_role_id : System → String → System
set_authenticated_role_id s id = record s { authenticated_role_id = trim_space id }

unfoldable pub set_admin_role_id : System → String → System
set_admin_role_id s id = record s { admin_role_id = trim_space id }

unfoldable pub set_admin_group_id : System → String → System
set_admin_group_id s id = record s { admin_group_id = trim_space id }

-- SetSyntheticRoleIDs
unfoldable pub set_synthetic_role_ids : System → String → String → String → System
set_synthetic_role_ids s public authenticated admin = record s {
  public_role_id = trim_space public;
  authenticated_role_id = trim_space authenticated;
  admin_role_id = trim_space admin;
}

-- applyDefaultSyntheticRoleIDs
unfoldable pub apply_default_synthetic_role_ids : System → System
apply_default_synthetic_role_ids s = record s {
  public_role_id = if trim_space s.public_role_id == "" then "builtin.public" else s.public_role_id;
  authenticated_role_id =
      if trim_space s.authenticated_role_id == ""
      then "builtin.authenticated"
      else s.authenticated_role_id;
  admin_role_id = if trim_space s.admin_role_id == "" then "builtin.admin" else s.admin_role_id;
}

-- SetIdentityProvider
unfoldable pub set_identity_provider : System → Option IdentityProvider → System
set_identity_provider s identity = record s { identity = identity }

-- SetStore, where the store is a bootstrap store; `none` is nil
unfoldable pub set_store : System → Option Store → System
set_store s none = record s {
  store = Bootstrap.new_store;
  cache = invalidate_disabled_cache s.cache;
}
set_store s (some store) = record s { store = store; cache = invalidate_disabled_cache s.cache }

-- SetBuiltInGrants: the error is dropped
unfoldable pub set_built_in_grants : System → List Grant → System
unfolding save_built_ins
set_built_in_grants s grants = (save_built_ins s grants).0
