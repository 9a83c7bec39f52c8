-- ===== src/CachedStore/Methods.antt =====
-- The methods of the caching store (cachedstore/store.go).
use go_permissions.Base.{ℕ, String, List, Option, none, some, map}
use go_permissions.Base.Maps.{Map}
use go_permissions.Base.Results.{Error, Result, ok, err}
use go_permissions.Types.{
  Grant, GrantQuery, GrantQueryResult, PrincipalHit, PrincipalRef, Request, Role, RoleAssignment,
  RoleAssignmentHit, Value,
}
use go_permissions.CachedStore.{
  PermissionStore, Answer, roles, role, assignments, hits, grants, role_ids, principals, grant_page,
  Query, all_roles, one_role, assignments_of, holders_of, grants_of, expanded, owned, granted,
  listed, make_key, GoCache, Store, clone_grant, clone_page, as_roles, as_role, as_assignments,
  as_hits, as_grants, as_role_ids, as_principals, as_page,
}

module _ {S C : Type 0} (b : PermissionStore S) (gc : GoCache C)
    (marshal : Query → Option String) where
  -- what every read does: a live entry of the right type answers, or the base does and the copy is kept
  module _ {A : Type 0} (s : Store S C) (q : Query) (cast : Answer → Option A) (wrap : A → Answer)
      (copy : A → A) (value : Result A) (now : ℕ) where
    unfoldable pub fetch : Store S C × Result A
    fetch = elim value [
      | err e ↦ (s, err e)
      | ok v ↦ (
        record s { cache = gc.set s.cache (make_key marshal q) (wrap (copy v)) s.ttl now },
        ok (copy (copy v)),
      )
    ]

    unfoldable pub memoize : Store S C × Result A
    unfolding fetch
    memoize = elim (gc.get s.cache (make_key marshal q) now) [
      | none ↦ fetch
      | some a ↦ elim (cast a) [ none ↦ fetch | some v ↦ (s, ok (copy v)) ]
    ]

  -- InvalidateAll
  unfoldable pub invalidate_all : Store S C → Store S C
  invalidate_all s = record s { cache = gc.flush s.cache }

  module _ (s : Store S C) (now : ℕ) where
    -- RoleDefinitions
    unfoldable pub role_definitions : Store S C × Result (List Role)
    role_definitions =
        memoize s all_roles as_roles roles (λ v. v) (b.role_definitions s.base now) now

    -- RoleDefinition
    unfoldable pub role_definition : String → Store S C × Result Role
    role_definition role_id =
        memoize s (one_role role_id) as_role role (λ v. v) (b.role_definition s.base role_id now)
          now

    -- RoleAssignmentsForPrincipal
    unfoldable pub role_assignments_for_principal :
        PrincipalRef → Store S C × Result (List RoleAssignment)
    role_assignments_for_principal p =
        memoize s (assignments_of p) as_assignments assignments (λ v. v)
          (b.role_assignments_for_principal s.base p now) now

    -- RoleAssignmentsForRoleID
    unfoldable pub role_assignments_for_role_id :
        String → Store S C × Result (List RoleAssignmentHit)
    role_assignments_for_role_id role_id =
        memoize s (holders_of role_id) as_hits hits (λ v. v)
          (b.role_assignments_for_role_id s.base role_id now) now

    -- GrantsForPrincipal
    unfoldable pub grants_for_principal : PrincipalRef → Store S C × Result (List Grant)
    grants_for_principal p =
        memoize s (grants_of p) as_grants grants (map clone_grant)
          (b.grants_for_principal s.base p now) now

    -- ExpandRoles
    unfoldable pub expand_roles : List String → Store S C × Result (List String)
    expand_roles ids =
        memoize s (expanded ids) as_role_ids role_ids (λ v. v) (b.expand_roles s.base ids now) now

    -- GrantsForOwners
    unfoldable pub grants_for_owners : List PrincipalRef → Request → Store S C × Result (List Grant)
    grants_for_owners owners req =
        memoize s (owned owners req) as_grants grants (map clone_grant)
          (b.grants_for_owners s.base owners req now) now

    -- PrincipalsWithGrant
    unfoldable pub principals_with_grant : Request → Store S C × Result (List PrincipalHit)
    principals_with_grant req =
        memoize s (granted req) as_principals principals (λ v. v)
          (b.principals_with_grant s.base req now) now

    -- DisabledBuiltInRoles, which is not cached
    unfoldable pub disabled_built_in_roles : Result (List String)
    disabled_built_in_roles = b.disabled_built_in_roles s.base now

    -- ListGrants; what it returns of the base's answer is copied once, which is the same as twice
    unfoldable pub list_grants : GrantQuery → Store S C × Result GrantQueryResult
    list_grants q =
        memoize s (listed q) as_page grant_page clone_page (b.list_grants s.base q now) now

  -- what every write does: the cache is emptied where the base reports no error
  unfoldable pub after_write : Store S C → S × Option Error → Store S C × Option Error
  unfolding invalidate_all
  after_write s (base, some e) = (record s { base = base }, some e)
  after_write s (base, none) = (invalidate_all (record s { base = base }), none)

  module _ (s : Store S C) where
    -- CreateGrant, AssignRole, UnassignRole, CreateRole, UpdateRole, DeleteRole, AddRoleInheritance, DeleteGrantsForOwner,
    -- DisableBuiltInRole and EnableBuiltInRole
    unfoldable pub create_grant : Grant → Store S C × Option Error
    create_grant g = after_write s (b.create_grant s.base g)

    unfoldable pub assign_role :
        PrincipalRef → String → List Role → Map Value → Store S C × Option Error
    assign_role p role_id built_ins values =
        after_write s (b.assign_role s.base p role_id built_ins values)

    unfoldable pub unassign_role :
        PrincipalRef → String → List Role → Map Value → Store S C × Option Error
    unassign_role p role_id built_ins values =
        after_write s (b.unassign_role s.base p role_id built_ins values)

    unfoldable pub create_role : Role → Store S C × Option Error
    create_role r = after_write s (b.create_role s.base r)

    unfoldable pub update_role : Role → Store S C × Option Error
    update_role r = after_write s (b.update_role s.base r)

    unfoldable pub delete_role : String → Store S C × Option Error
    delete_role role_id = after_write s (b.delete_role s.base role_id)

    unfoldable pub add_role_inheritance : String → String → Store S C × Option Error
    add_role_inheritance parent child = after_write s (b.add_role_inheritance s.base parent child)

    unfoldable pub delete_grants_for_owner : String → String → Store S C × Option Error
    delete_grants_for_owner kind id = after_write s (b.delete_grants_for_owner s.base kind id)

    unfoldable pub disable_built_in_role : String → Store S C × Option Error
    disable_built_in_role role_id = after_write s (b.disable_built_in_role s.base role_id)

    unfoldable pub enable_built_in_role : String → Store S C × Option Error
    enable_built_in_role role_id = after_write s (b.enable_built_in_role s.base role_id)
