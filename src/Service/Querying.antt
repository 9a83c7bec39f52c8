-- ===== src/Service/Querying.antt =====
-- The queries of the Service for its callers: ExpandRoles, GrantsForOwners, DisabledBuiltInRoles
-- (service.go). An evaluation does not call these: it has `expandRolesCached` and `fetchRoleGrants`.
use go_permissions.Base.{
  ℕ, String, Bool, not, ◌&&◌, List, [], ◌∷◌, ◌++◌, if◌then◌else◌, ◌==◌, contains_string, filter,
  is_empty,
}
use go_permissions.Base.Text.{has_prefix}
use go_permissions.Base.Results.{Result, ok, err, ◌>>=◌}
use go_permissions.Types.{Grant, PrincipalRef, Request, principal_role}
use go_permissions.BuiltIn
use go_permissions.BuiltIn.{built_in_prefix}
use go_permissions.Service.State.{
  Service, DisabledCache, get_disabled_built_in_roles, or_empty, role_definition,
}
use go_permissions.Service.Expansion.{says_disabled}

-- the loop of ExpandRoles, which drops what it has seen and disabled roles
unfoldable pub keep_unseen :
    Service
    → ℕ
    → List String
    → List String
    → List String
    → DisabledCache
    → List String × DisabledCache
unfolding role_definition says_disabled
keep_unseen s now disabled [] seen c = ([], c)
keep_unseen s now disabled (id ∷ ids) seen c =
    let again = keep_unseen s now disabled ids seen c in
    let skipped = keep_unseen s now disabled ids (id ∷ seen) c in
    let (def, c') = role_definition s now c id in
    let (rest, c'') = keep_unseen s now disabled ids (id ∷ seen) c' in
    if contains_string seen id
    then again
    else if contains_string disabled id
    then skipped
    else if says_disabled def
    then (rest, c'')
    else (id ∷ rest, c'')

-- what the roles inherit: custom roles in the store first, then all of them in memory
unfoldable pub inherited_by : Service → List String → Result (List String)
unfolding filter
inherited_by s role_ids =
    let built_in_ids = filter (λ id. has_prefix id built_in_prefix) role_ids in
    let custom_ids = filter (λ id. not (has_prefix id built_in_prefix)) role_ids in
    do
      expanded ← if is_empty custom_ids then ok [] else s.permissions.expand_roles custom_ids
      ok (BuiltIn.expand_roles s.built_ins (expanded ++ built_in_ids))

-- ExpandRoles
unfoldable pub expand_roles :
    Service → ℕ → List String → DisabledCache → Result (List String) × DisabledCache
unfolding inherited_by get_disabled_built_in_roles or_empty keep_unseen
expand_roles s now role_ids c = elim (inherited_by s role_ids) [
  | err e ↦ (err e, c)
  | ok expanded ↦
      let (disabled, c') = get_disabled_built_in_roles s now c in
      let (filtered, c'') = keep_unseen s now (or_empty disabled) expanded [] c' in
      (ok filtered, c'')
]

abbrev is_built_in_owner : PrincipalRef → Bool
is_built_in_owner o = o.kind == principal_role && has_prefix o.id built_in_prefix

-- GrantsForOwners
unfoldable pub grants_for_owners : Service → ℕ → List PrincipalRef → Request → Result (List Grant)
unfolding filter
grants_for_owners s now owners req =
    let built_in_owners = filter is_built_in_owner owners in
    let custom_owners = filter (λ o. not (is_built_in_owner o)) owners in
    let grants =
      if is_empty built_in_owners
      then []
      else BuiltIn.grants_for_owners s.built_ins built_in_owners req now in
    if is_empty custom_owners then ok grants else do
      custom_grants ← s.permissions.grants_for_owners custom_owners req
      ok (grants ++ custom_grants)

-- DisabledBuiltInRoles
unfoldable pub disabled_built_in_roles : Service → Result (List String)
disabled_built_in_roles s = s.permissions.disabled_built_in_roles
