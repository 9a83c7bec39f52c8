-- ===== src/Service/Expansion.antt =====
-- Role expansion within a request (`expandRolesCached`), and `fetchRoleGrants`.
use go_permissions.Base.{
  ℕ, String, Bool, false, List, [], ◌∷◌, ◌++◌, none, some, if◌then◌else◌, contains_string, filter,
  not, is_empty, map,
}
use go_permissions.Base.Text.{has_prefix}
use go_permissions.Base.Maps.{Map, get, put}
use go_permissions.Base.Results.{Result, ok, err, ◌>>=◌}
use go_permissions.Types.{Grant, Role, PrincipalRef, Request, principal_role}
use go_permissions.BuiltIn
use go_permissions.BuiltIn.{built_in_prefix}
use go_permissions.Service.State.{
  Service, DisabledCache, get_disabled_built_in_roles, or_empty, role_definition,
}

-- `err == nil && roleDef.IsDisabled`
unfoldable pub says_disabled : Result Role → Bool
says_disabled (ok r) = r.is_disabled
says_disabled (err e) = false

-- the loop that drops disabled roles
unfoldable pub keep_enabled :
    Service → ℕ → List String → List String → DisabledCache → List String × DisabledCache
unfolding role_definition says_disabled
keep_enabled s now disabled [] c = ([], c)
keep_enabled s now disabled (id ∷ ids) c =
    let (def, c') = role_definition s now c id in
    let skipped = keep_enabled s now disabled ids c in
    let (rest, c'') = keep_enabled s now disabled ids c' in
    if contains_string disabled id
    then skipped
    else if says_disabled def
    then (rest, c'')
    else (id ∷ rest, c'')

-- the roles that the root inherits: in memory for a built-in root, else from the store and then in memory
unfoldable pub inherited : Service → String → Result (List String)
inherited s root =
    if has_prefix root built_in_prefix
    then ok (BuiltIn.expand_roles s.built_ins (root ∷ []))
    else do
      expanded ← s.permissions.expand_roles (root ∷ [])
      ok (BuiltIn.expand_roles s.built_ins expanded)

-- what a request carries along: the service's cache, and `expandCache`
pub record Progress : Type 0 where
  pub cache : DisabledCache
  pub expanded : Map (List String)

-- expandRolesCached
unfoldable pub expand_roles_cached :
    Service → ℕ → String → Progress → Result (List String) × Progress
unfolding get_disabled_built_in_roles or_empty inherited keep_enabled
expand_roles_cached s now root p = elim (get p.expanded root) [
  | some ids ↦ (ok ids, p)
  | none ↦
      let (disabled, c) = get_disabled_built_in_roles s now p.cache in
      elim (inherited s root) [
        | err e ↦ (err e, record p { cache = c })
        | ok ids ↦
            let (kept, c') = keep_enabled s now (or_empty disabled) ids c in
            (ok kept, record { cache = c'; expanded = put p.expanded root kept })
      ]
]

abbrev pub role_ref : String → PrincipalRef
role_ref id = record { kind = principal_role; id = id }

-- fetchRoleGrants
unfoldable pub fetch_role_grants : Service → ℕ → List String → Request → Result (List Grant)
unfolding filter
fetch_role_grants s now role_ids req =
    let built_in_owners = map role_ref (filter (λ id. has_prefix id built_in_prefix) role_ids) in
    let custom_owners =
      map role_ref (filter (λ id. not (has_prefix id built_in_prefix)) role_ids) in
    let built_in_grants =
      if is_empty built_in_owners
      then []
      else BuiltIn.grants_for_owners s.built_ins built_in_owners req now in
    if is_empty custom_owners then ok built_in_grants else do
      custom_grants ← s.permissions.grants_for_owners custom_owners req
      ok (built_in_grants ++ custom_grants)
