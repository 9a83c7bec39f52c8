-- ===== src/Service/State.antt =====
-- The service, what it reads of its store and identity provider, and its cache of disabled roles
-- (service.go, store.go). The store and the provider are interfaces: records of what their reading methods answer
-- during one call. The clock stands still during a call, at `now`.
use go_permissions.Base.{
  ℕ, ◌-◌, String, ◌||◌, List, [], Option, none, some, if◌then◌else◌, ltb, contains_string,
}
use go_permissions.Base.Results.{Result, ok, err}
use go_permissions.Types.{Grant, Role, RoleAssignment, PrincipalRef, Request}
use go_permissions.BuiltIn
use go_permissions.BuiltIn.{Registry}

-- the methods of PermissionStore that an evaluation calls
pub record PermissionStore : Type 0 where
  pub role_definition : String → Result Role
  pub role_assignments_for_principal : PrincipalRef → Result (List RoleAssignment)
  pub grants_for_owners : List PrincipalRef → Request → Result (List Grant)
  pub expand_roles : List String → Result (List String)
  pub disabled_built_in_roles : Result (List String)

-- the methods of IdentityProvider that an evaluation calls
pub record IdentityProvider : Type 0 where
  pub get_user_groups : String → Result (List String)
  pub get_user_teams : String → Result (List String)

pub record Service : Type 0 where
  pub identity : Option IdentityProvider
  pub permissions : PermissionStore
  pub built_ins : Registry
  pub public_role_id : String
  pub authenticated_role_id : String
  pub admin_role_id : String
  pub admin_group_id : String

-- `disabledCache` and `disabledCacheAt`
pub record DisabledCache : Type 0 where
  pub entries : Option (List String)
  pub at : ℕ

-- 5 * time.Second
abbrev pub cache_ttl : ℕ
cache_ttl = 5_000_000_000

-- `time.Since(at) < 5*time.Second && cache != nil`: the entries, while they may be used
unfoldable pub fresh_entries : DisabledCache → ℕ → Option (List String)
fresh_entries c now = if ltb (now - c.at) cache_ttl then c.entries else none

-- getDisabledBuiltInRoles
unfoldable pub get_disabled_built_in_roles :
    Service → ℕ → DisabledCache → Result (List String) × DisabledCache
unfolding fresh_entries
get_disabled_built_in_roles s now c = elim (fresh_entries c now) [
  | some ids ↦ (ok ids, c)
  | none ↦ elim s.permissions.disabled_built_in_roles [
    | err e ↦ (err e, c)
    | ok ids ↦ (ok ids, record { entries = some ids; at = now })
  ]
]

-- invalidateDisabledCache
unfoldable pub invalidate_disabled_cache : DisabledCache → DisabledCache
invalidate_disabled_cache c = record c { at = 0 }

-- `if err != nil { disabledMap = map[string]bool{} }`
unfoldable pub or_empty : Result (List String) → List String
or_empty (ok ids) = ids
or_empty (err e) = []

-- a built-in role as RoleDefinition returns it
unfoldable pub with_disabled : Role → List String → String → Role
with_disabled r disabled role_id = record r {
  is_disabled = r.is_disabled || contains_string disabled role_id;
}

-- RoleDefinition
unfoldable pub role_definition : Service → ℕ → DisabledCache → String → Result Role × DisabledCache
unfolding get_disabled_built_in_roles or_empty with_disabled
role_definition s now c role_id = elim (BuiltIn.role s.built_ins role_id) [
  | none ↦ (s.permissions.role_definition role_id, c)
  | some r ↦
      let (disabled, c') = get_disabled_built_in_roles s now c in
      (ok (with_disabled r (or_empty disabled) role_id), c')
]
