-- ===== src/System/Shortcuts.antt =====
-- The methods of the Service that write one grant or one assignment from plain arguments
-- (service.go): AllowUser, DenyUser and AllowRole with their Until and For forms, and
-- AssignRoleToUser, and AddDefaultGrant. A `time.Duration` is an integer of nanoseconds, as the times are.
use go_permissions.Base.{ℕ, ◌+◌, ltb, String, if◌then◌else◌, ◌==◌, Option, none, some, []}
use go_permissions.Base.Maps.{Map}
use go_permissions.Base.Results.{Error, role_id_required, user_id_required, message, panic}
use go_permissions.Base.Text.{has_prefix, concat, trim_space}
use go_permissions.BuiltIn
use go_permissions.BuiltIn.{Registry, built_in_prefix}
use go_permissions.Types.{
  ℤ, pos, negsuc, Grant, Value, effect_allow, effect_deny, principal_role, principal_user,
}
use go_permissions.System.{System, create_grant, assign_role}

-- the grant that these methods give to CreateGrant
abbrev pub plain_grant : String → String → String → String → Option String → Option ℕ → Grant
plain_grant kind id effect perm object expires = record {
  id = 0;
  owner_kind = kind;
  owner_id = id;
  effect = effect;
  team_scope = "*";
  object_scope = object;
  permission_name = perm;
  expires_at = expires;
  restricted_fields = [];
  variable_spec = none;
}

-- AllowUser, AllowUserUntil
unfoldable pub allow_user : System → String → String → Option String → System × Option Error
allow_user s user_id perm object =
    create_grant s (plain_grant principal_user user_id effect_allow perm object none)

unfoldable pub allow_user_until :
    System → String → String → Option String → ℕ → System × Option Error
allow_user_until s user_id perm object at =
    create_grant s (plain_grant principal_user user_id effect_allow perm object (some at))

-- the guard of the methods that take a time to live
unfoldable pub lasting : System → ℤ → ℕ → (ℕ → System × Option Error) → System × Option Error
lasting s (negsuc n) now until = (s, some (message "ttl must be greater than zero"))
lasting s (pos n) now until =
    if ltb 0 n then until (now + n) else (s, some (message "ttl must be greater than zero"))

-- AllowUserFor
unfoldable pub allow_user_for :
    System → String → String → Option String → ℤ → ℕ → System × Option Error
unfolding lasting allow_user_until
allow_user_for s user_id perm object ttl now =
    lasting s ttl now (allow_user_until s user_id perm object)

-- DenyUser, DenyUserUntil, DenyUserFor
unfoldable pub deny_user : System → String → String → Option String → System × Option Error
deny_user s user_id perm object =
    create_grant s (plain_grant principal_user user_id effect_deny perm object none)

unfoldable pub deny_user_until :
    System → String → String → Option String → ℕ → System × Option Error
deny_user_until s user_id perm object at =
    create_grant s (plain_grant principal_user user_id effect_deny perm object (some at))

unfoldable pub deny_user_for :
    System → String → String → Option String → ℤ → ℕ → System × Option Error
unfolding lasting deny_user_until
deny_user_for s user_id perm object ttl now =
    lasting s ttl now (deny_user_until s user_id perm object)

-- AllowRole, AllowRoleUntil, AllowRoleFor
unfoldable pub allow_role : System → String → String → Option String → System × Option Error
allow_role s role_id perm object =
    create_grant s (plain_grant principal_role role_id effect_allow perm object none)

unfoldable pub allow_role_until :
    System → String → String → Option String → ℕ → System × Option Error
allow_role_until s role_id perm object at =
    create_grant s (plain_grant principal_role role_id effect_allow perm object (some at))

unfoldable pub allow_role_for :
    System → String → String → Option String → ℤ → ℕ → System × Option Error
unfolding lasting allow_role_until
allow_role_for s role_id perm object ttl now =
    lasting s ttl now (allow_role_until s role_id perm object)

-- AssignRoleToUser
unfoldable pub assign_role_to_user : System → String → String → Map Value → System × Option Error
assign_role_to_user s user_id role_id values =
    if user_id == ""
    then (s, some user_id_required)
    else if role_id == ""
    then (s, some role_id_required)
    else assign_role s (record { kind = principal_user; id = user_id }) role_id values

-- the role ID with the prefix of built-in roles
unfoldable pub default_role_id : String → String
default_role_id id = if has_prefix id built_in_prefix then id else concat built_in_prefix id

-- the grant that AddDefaultGrant adds
abbrev pub default_grant_of : String → String → String → Grant
default_grant_of role_id perm team =
    let scope = trim_space team in
    record (plain_grant principal_role (default_role_id (trim_space role_id)) effect_allow
      (trim_space perm) none none) { team_scope = if scope == "" then "*" else scope }

-- AddDefaultGrant, over the registry of the service; the error of AddGrant is dropped
unfoldable pub add_default_grant : Registry → String → String → String → Registry × Option Error
unfolding default_role_id
add_default_grant r role_id perm team =
    if trim_space role_id == ""
    then (r, some (panic "role ID is required"))
    else if trim_space perm == ""
    then (r, some (panic "permission name is required"))
    else ((BuiltIn.add_grant r (default_grant_of role_id perm team)).0, none)
