-- ===== src/PermissionRegistry.antt =====
-- PermissionRegistry (registry.go): the permissions that the program declares, each once.
pub mod Laws
use go_permissions.Base.{
  ℕ, String, Bool, true, false, not, ◌&&◌, ◌||◌, List, [], ◌∷◌, Option, none, some, if◌then◌else◌,
  ◌==◌, filter, length,
}
use go_permissions.Base.Text.{trim_space}
use go_permissions.Base.Maps.{Map, get, put}
use go_permissions.Base.Sort.{sort_by}
use go_permissions.Base.Results.{Error, message}

abbrev pub permission_scope_system : String
permission_scope_system = "system"

abbrev pub permission_scope_team : String
permission_scope_team = "team"

abbrev pub permission_scope_object : String
permission_scope_object = "object"

pub record PermissionDefinition : Type 0 where
  pub id : String
  pub scope : String
  pub namespace : String
  pub name : String
  pub description : String
  pub fields : List String

-- PermissionDefinition.Validate; `none` is the nil error
unfoldable pub validate : PermissionDefinition → Option Error
validate d =
    if trim_space d.id == ""
    then some (message "permission ID is required")
    else if not (d.scope == permission_scope_system)
        && not (d.scope == permission_scope_team)
        && not (d.scope == permission_scope_object)
    then some (message "permission scope must be one of system, team, object")
    else if trim_space d.namespace == ""
    then some (message "permission namespace is required")
    else if trim_space d.name == ""
    then some (message "permission name is required")
    else none

pub record PermissionRegistry : Type 0 where
  pub by_id : Map PermissionDefinition

-- NewPermissionRegistry
abbrev pub new_registry : PermissionRegistry
new_registry = record { by_id = [] }

-- Register
unfoldable pub register :
    PermissionRegistry → PermissionDefinition → PermissionRegistry × Option Error
unfolding validate
register r d = elim (validate d) [
  | some e ↦ (r, some e)
  | none ↦ elim (get r.by_id d.id) [
    | some _ ↦ (r, some (message "permission is already registered"))
    | none ↦ (record { by_id = put r.by_id d.id d }, none)
  ]
]

-- Get
unfoldable pub lookup : PermissionRegistry → String → Option PermissionDefinition
lookup r id = get r.by_id id

-- Exists
unfoldable pub exists : PermissionRegistry → String → Bool
exists r id = elim (get r.by_id id) [ none ↦ false | some _ ↦ true ]

definitions : Map PermissionDefinition → List PermissionDefinition
definitions [] = []
definitions ((_, d) ∷ m) = d ∷ definitions m

-- List
unfoldable pub list : PermissionRegistry → List PermissionDefinition
unfolding definitions
list r = sort_by (λ (d : PermissionDefinition). d.id) (definitions r.by_id)

-- ListByNamespace
unfoldable pub list_by_namespace : PermissionRegistry → String → List PermissionDefinition
unfolding definitions filter
list_by_namespace r namespace =
    sort_by (λ (d : PermissionDefinition). d.id)
      (filter (λ d. d.namespace == namespace) (definitions r.by_id))

-- Len
unfoldable pub size : PermissionRegistry → ℕ
size r = length r.by_id
