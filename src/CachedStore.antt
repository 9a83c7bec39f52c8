-- ===== src/CachedStore.antt =====
-- The caching store (cachedstore/store.go) over any store. The package go-cache and `json.Marshal` are
-- parameters. A read returns the new state beside its result, and takes the time where Go's cache and the
-- base call `time.Now`; copying changes only a nil map of variables, to an empty one.
pub mod Methods
pub mod Keys
pub mod Staleness
pub mod History
pub mod Clones
pub mod OverBootstrap
use go_permissions.Base.{ℕ, String, List, [], Option, none, some, if◌then◌else◌, leb, map}
use go_permissions.Base.Text.{concat}
use go_permissions.Base.Maps.{Map}
use go_permissions.Base.Results.{Error, Result, ok, err, panic}
use go_permissions.Types.{
  ℤ, pos, negsuc, Grant, GrantQuery, GrantQueryResult, PrincipalHit, PrincipalRef, Request, Role,
  RoleAssignment, RoleAssignmentHit, Value,
}

-- PermissionStore (store.go), over a state `S` that its methods change
pub record PermissionStore (S : Type 0) : Type 0 where
  pub role_definitions : S → ℕ → Result (List Role)
  pub role_definition : S → String → ℕ → Result Role
  pub create_role : S → Role → S × Option Error
  pub update_role : S → Role → S × Option Error
  pub delete_role : S → String → S × Option Error
  pub add_role_inheritance : S → String → String → S × Option Error
  pub role_assignments_for_principal : S → PrincipalRef → ℕ → Result (List RoleAssignment)
  pub role_assignments_for_role_id : S → String → ℕ → Result (List RoleAssignmentHit)
  pub assign_role : S → PrincipalRef → String → List Role → Map Value → S × Option Error
  pub unassign_role : S → PrincipalRef → String → List Role → Map Value → S × Option Error
  pub grants_for_principal : S → PrincipalRef → ℕ → Result (List Grant)
  pub grants_for_owners : S → List PrincipalRef → Request → ℕ → Result (List Grant)
  pub create_grant : S → Grant → S × Option Error
  pub principals_with_grant : S → Request → ℕ → Result (List PrincipalHit)
  pub expand_roles : S → List String → ℕ → Result (List String)
  pub delete_grants_for_owner : S → String → String → S × Option Error
  pub disable_built_in_role : S → String → S × Option Error
  pub enable_built_in_role : S → String → S × Option Error
  pub disabled_built_in_roles : S → ℕ → Result (List String)
  pub list_grants : S → GrantQuery → ℕ → Result GrantQueryResult

-- a cached `any`, by its dynamic type
pub data Answer : Type 0 where
  roles : List Role → Answer
  role : Role → Answer
  assignments : List RoleAssignment → Answer
  hits : List RoleAssignmentHit → Answer
  grants : List Grant → Answer
  role_ids : List String → Answer
  principals : List PrincipalHit → Answer
  grant_page : GrantQueryResult → Answer

-- what a key is made of: the method and its arguments
pub data Query : Type 0 where
  all_roles : Query
  one_role : String → Query
  assignments_of : PrincipalRef → Query
  holders_of : String → Query
  grants_of : PrincipalRef → Query
  expanded : List String → Query
  owned : List PrincipalRef → Request → Query
  granted : Request → Query
  listed : GrantQuery → Query

-- the first argument of `makeKey`
unfoldable pub prefix : Query → String
prefix all_roles = "role-definitions"
prefix (one_role _) = "role-definition"
prefix (assignments_of _) = "role-assignments-for-principal"
prefix (holders_of _) = "role-assignments-for-role-id"
prefix (grants_of _) = "grants-for-principal"
prefix (expanded _) = "expand-roles"
prefix (owned _ _) = "grants-for-owners"
prefix (granted _) = "principals-with-grant"
prefix (listed _) = "list-grants"

-- `makeKey`, with what `json.Marshal` gives for the second argument, `none` being an error
unfoldable pub make_key : (Query → Option String) → Query → String
unfolding prefix
make_key marshal all_roles = "role-definitions"
make_key marshal q = elim (marshal q) [
  | none ↦ prefix q
  | some e ↦ concat (prefix q) (concat ":" e)
]

-- The package go-cache: `get` and `set` take the time, and `set` the time to live before it.
pub record GoCache (C : Type 0) : Type 0 where
  pub empty : C
  pub get : C → String → ℕ → Option Answer
  pub set : C → String → Answer → ℕ → ℕ → C
  pub flush : C → C

pub record Store (S C : Type 0) : Type 0 where
  pub base : S
  pub cache : C
  pub ttl : ℕ

abbrev pub default_ttl : ℕ
default_ttl = 60_000_000_000

-- cloneGrants: `cloneMap` makes an empty map of a nil one
unfoldable pub clone_grant : Grant → Grant
clone_grant g = record g { variable_spec = some (elim g.variable_spec [ none ↦ [] | some m ↦ m ]) }

unfoldable pub clone_page : GrantQueryResult → GrantQueryResult
unfolding clone_grant
clone_page r = record r { grants = map clone_grant r.grants }

-- NewStoreWithTTL, for a base that is there
unfoldable pub new_store_with_ttl : {S C : Type 0} → GoCache C → S → ℤ → Store S C
new_store_with_ttl gc base ttl = record {
  base = base;
  cache = gc.empty;
  ttl = elim ttl [ negsuc _ ↦ default_ttl | pos n ↦ if leb n 0 then default_ttl else n ];
}

-- The types that a read asserts.
abbrev pub as_roles : Answer → Option (List Role)
as_roles a = elim a [ roles v ↦ some v | _ ↦ none ]

abbrev pub as_role : Answer → Option Role
as_role a = elim a [ role v ↦ some v | _ ↦ none ]

abbrev pub as_assignments : Answer → Option (List RoleAssignment)
as_assignments a = elim a [ assignments v ↦ some v | _ ↦ none ]

abbrev pub as_hits : Answer → Option (List RoleAssignmentHit)
as_hits a = elim a [ hits v ↦ some v | _ ↦ none ]

abbrev pub as_grants : Answer → Option (List Grant)
as_grants a = elim a [ grants v ↦ some v | _ ↦ none ]

abbrev pub as_role_ids : Answer → Option (List String)
as_role_ids a = elim a [ role_ids v ↦ some v | _ ↦ none ]

abbrev pub as_principals : Answer → Option (List PrincipalHit)
as_principals a = elim a [ principals v ↦ some v | _ ↦ none ]

abbrev pub as_page : Answer → Option GrantQueryResult
as_page a = elim a [ grant_page v ↦ some v | _ ↦ none ]
