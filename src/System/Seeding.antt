-- ===== src/System/Seeding.antt =====
-- The start-up methods of the Service (service.go): EnsureSyntheticRoles, SaveBuiltIns, AddBuiltInRole
-- and AddBuiltInTeamRole.
use go_permissions.Base.{
  String, true, false, not, ◌||◌, List, [], ◌∷◌, ◌++◌, Option, none, some, if◌then◌else◌, ◌==◌,
  contains_string,
}
use go_permissions.Base.Text.{has_prefix, concat}
use go_permissions.Base.Maps.{Map}
use go_permissions.Base.Results.{
  Error, role_id_required, role_name_required, role_owned_only, wrapped,
}
use go_permissions.Types.{Grant, Role, Value, str, principal_role, effect_allow}
use go_permissions.BuiltIn
use go_permissions.BuiltIn.{Registry, built_in_prefix}
use go_permissions.System.{System, create_role, to_built_ins}

-- ensureRoleExists
unfoldable pub ensure_role_exists : System → Role → System × Option Error
unfolding create_role
ensure_role_exists s role =
    if role.id == ""
    then (s, some role_id_required)
    else if role.name == ""
    then (s, some role_name_required)
    else create_role s role

-- the loop of EnsureSyntheticRoles
unfoldable pub ensure_roles : System → List Role → List String → System × Option Error
unfolding ensure_role_exists
ensure_roles s [] seen = (s, none)
ensure_roles s (role ∷ roles) seen =
    let skipped = ensure_roles s roles seen in
    let (s', e) = ensure_role_exists s role in
    let rest = ensure_roles s' roles (role.id ∷ seen) in
    if role.id == "" || contains_string seen role.id
    then skipped
    else elim e [ some x ↦ (s', some x) | none ↦ rest ]

unfoldable pub synthetic_role : String → String → List Role
synthetic_role id description =
    if id == ""
    then []
    else record {
      id = id;
      name = id;
      description = description;
      scope = "";
      tags = [];
      permissions = [];
      built_in = false;
      is_disabled = false;
    }
      ∷ []

-- the list that EnsureSyntheticRoles builds
unfoldable pub synthetic_roles : System → List Role
unfolding synthetic_role
synthetic_roles s =
    synthetic_role s.public_role_id "synthetic public role"
    ++ synthetic_role s.authenticated_role_id "synthetic authenticated role"
    ++ synthetic_role s.admin_role_id "synthetic admin role"

-- EnsureSyntheticRoles
unfoldable pub ensure_synthetic_roles : System → System × Option Error
unfolding ensure_roles synthetic_roles
ensure_synthetic_roles s = ensure_roles s (synthetic_roles s) []

-- the loop of SaveBuiltIns
unfoldable pub save_grants : System → List Grant → System × Option Error
save_grants s [] = (s, none)
save_grants s (g ∷ grants) =
    let (built_ins, e) = BuiltIn.add_grant s.built_ins g in
    let s' = record s { built_ins = built_ins } in
    let rest = save_grants s' grants in
    if not (g.owner_kind == principal_role)
    then (s, some role_owned_only)
    else elim e [ some x ↦ (s', some x) | none ↦ rest ]

-- SaveBuiltIns
unfoldable pub save_built_ins : System → List Grant → System × Option Error
unfolding ensure_synthetic_roles save_grants
save_built_ins s grants =
    let (s', e) = ensure_synthetic_roles s in
    elim e [ some x ↦ (s', some x) | none ↦ save_grants s' grants ]

-- the loop of AddBuiltInRole over the role's permissions
unfoldable pub seed_grants :
    Registry → String → (String → Grant) → List String → Registry × Option Error
seed_grants r id seed [] = (r, none)
seed_grants r id seed (perm ∷ perms) =
    let (r', e) = BuiltIn.add_grant r (seed perm) in
    let rest = seed_grants r' id seed perms in
    elim e [
      | some x ↦ (r', some (wrapped (concat "failed to seed grant for built-in role " id) x))
      | none ↦ rest
    ]

-- what AddBuiltInRole and AddBuiltInTeamRole share; `seed id perm` is the grant of a permission
unfoldable pub add_seeded : System → Role → (String → String → Grant) → System × Option Error
unfolding seed_grants
add_seeded s role seed =
    let id =
      if has_prefix role.id built_in_prefix then role.id else concat built_in_prefix role.id in
    let (registered, e) =
      BuiltIn.register_role s.built_ins (record role { id = id; built_in = true }) in
    if role.id == ""
    then (s, some role_id_required)
    else if role.name == ""
    then (s, some role_name_required)
    else elim e [
      | some x ↦ (
        record s { built_ins = registered },
        some (wrapped (concat "failed to register built-in role " id) x),
      )
      | none ↦ to_built_ins s (seed_grants registered id (seed id) role.permissions)
    ]

unfoldable pub role_grant : String → String → Option (Map Value) → String → Grant
role_grant id team_scope spec perm = record {
  id = 0;
  owner_kind = principal_role;
  owner_id = id;
  effect = effect_allow;
  team_scope = team_scope;
  object_scope = none;
  permission_name = perm;
  expires_at = none;
  restricted_fields = [];
  variable_spec = spec;
}

-- AddBuiltInRole
unfoldable pub add_built_in_role : System → Role → System × Option Error
unfolding add_seeded role_grant
add_built_in_role s role = add_seeded s role (λ id. role_grant id "*" none)

-- AddBuiltInTeamRole
unfoldable pub add_built_in_team_role : System → Role → System × Option Error
unfolding add_seeded role_grant
add_built_in_team_role s role =
    add_seeded s role (λ id. role_grant id "?team" (some (("team", str "required") ∷ [])))
