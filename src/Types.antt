-- ===== src/Types.antt =====
-- The data of types.go. Go's string-based types (`PrincipalKind`, `Effect`, `RoleScope`) are texts,
-- so values outside their constants are in the model too. A pointer that the code only reads is an
-- `Option`; a `time.Time` is a number of nanoseconds since the zero time.
mod Values
unfoldable pub use Values.*
pub mod Principals
pub mod Numbers
use go_permissions.Base.{
  ℕ, String, Bool, true, false, not, List, Option, none, some, ◌&&◌, ltb, if◌then◌else◌, ◌==◌,
}
use go_permissions.Base.Text.{trim_space}
use go_permissions.Base.Maps.{Map}
use go_permissions.Base.Results.{
  Result, ok, err, principal_id_required, unsupported_kind, role_id_required, invalid_role_scope,
}

abbrev pub role_scope_system : String
role_scope_system = "system"

abbrev pub role_scope_team : String
role_scope_team = "team"

abbrev pub role_scope_object : String
role_scope_object = "object"

abbrev pub principal_user : String
principal_user = "user"

abbrev pub principal_group : String
principal_group = "group"

abbrev pub principal_team : String
principal_team = "team"

abbrev pub principal_role : String
principal_role = "role"

abbrev pub synthetic_role_public : String
synthetic_role_public = "builtin.public"

abbrev pub synthetic_role_authenticated : String
synthetic_role_authenticated = "builtin.authenticated"

abbrev pub synthetic_role_admin : String
synthetic_role_admin = "builtin.admin"

abbrev pub effect_allow : String
effect_allow = "allow"

abbrev pub effect_deny : String
effect_deny = "deny"

pub record Request : Type 0 where
  pub user_id : String
  pub team_id : String
  pub object : String
  pub perm : String

pub record PrincipalRef : Type 0 where
  pub kind : String
  pub id : String

-- `BindingValues`: a nil map and an empty one are both `[]`, since the code tells them apart nowhere
-- that a result shows.
pub record RoleAssignment : Type 0 where
  pub role_id : String
  pub binding_values : Map Value

pub record RoleAssignmentHit : Type 0 where
  pub role_id : String
  pub binding_values : Map Value
  pub principal : PrincipalRef

-- `VariableSpec`: `none` is the nil map, which `reflect.DeepEqual` tells from an empty one.
pub record Grant : Type 0 where
  pub id : ℕ
  pub owner_kind : String
  pub owner_id : String
  pub effect : String
  pub team_scope : String
  pub object_scope : Option String
  pub permission_name : String
  pub expires_at : Option ℕ
  pub restricted_fields : List String
  pub variable_spec : Option (Map Value)

pub record Role : Type 0 where
  pub id : String
  pub name : String
  pub description : String
  pub scope : String
  pub tags : List String
  pub permissions : List String
  pub built_in : Bool
  pub is_disabled : Bool

pub record PrincipalHit : Type 0 where
  pub kind : String
  pub id : String
  pub team_scope : String
  pub object_scope : Option String
  pub permission_name : String

pub record GrantQuery : Type 0 where
  pub principals : List PrincipalRef
  pub team_scopes : List String
  pub object_scopes : List String
  pub permissions : List String
  pub permission_prefix : String
  pub include_effective : Bool
  pub limit : ℤ
  pub cursor : String

pub record GrantQueryResult : Type 0 where
  pub grants : List Grant
  pub next_cursor : String
  pub total_count : ℕ

-- `Grant.IsActiveAt`
unfoldable pub is_active_at : Grant → ℕ → Bool
is_active_at g now = elim g.expires_at [ none ↦ true | some t ↦ ltb now t ]

-- `Grant.IsExpiredAt`
unfoldable pub is_expired_at : Grant → ℕ → Bool
unfolding is_active_at
is_expired_at g now = not (is_active_at g now)

-- the `switch` on a principal's kind
unfoldable pub is_principal_kind : String → Bool
is_principal_kind k =
    if k == principal_user
    then true
    else if k == principal_group
    then true
    else if k == principal_team
    then true
    else k == principal_role

-- `PrincipalRef.Validate`; `none` is the nil error
unfoldable pub validate_principal : PrincipalRef → Result (Unit {0})
unfolding is_principal_kind
validate_principal r =
    if r.id == ""
    then err principal_id_required
    else if is_principal_kind r.kind
    then ok tt
    else err (unsupported_kind r.kind)

-- `Role.Validate`
unfoldable pub validate_role : Role → Result (Unit {0})
validate_role r =
    if trim_space r.id == ""
    then err role_id_required
    else if not (r.scope == "")
        && not (r.scope == role_scope_system)
        && not (r.scope == role_scope_team)
        && not (r.scope == role_scope_object)
    then err (invalid_role_scope r.scope)
    else ok tt
