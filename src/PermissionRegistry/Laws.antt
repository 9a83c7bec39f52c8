-- ===== src/PermissionRegistry/Laws.antt =====
-- Register adds a valid definition once, and Get finds it.
use go_permissions.Base.{◌≡◌, String, none, some, arith, if◌then◌else◌, ◌==◌, eq_iff}
use go_permissions.Base.Maps.{get-put}
use go_permissions.PermissionRegistry.{
  PermissionRegistry, PermissionDefinition, validate, register, lookup,
}

-- A valid definition is looked up under its ID after Register, unless the ID was taken, and then the older one is; every other
-- ID answers as before, and where the definition is invalid, every ID does.
pub lookup-register :
    (r : PermissionRegistry) (d : PermissionDefinition) (id : String)
    → lookup (register r d).0 id ≡ (elim (validate d) [
      | some _ ↦ lookup r id
      | none ↦
          if d.id == id
          then (elim (lookup r id) [ none ↦ some d | some old ↦ some old ])
          else lookup r id
    ])
unfolding lookup register
lookup-register r d id = ground (arith, get-put r.by_id d.id id d, eq_iff d.id id)

-- Once an ID is registered, no later call changes its definition.
pub register_keeps :
    (r : PermissionRegistry) (d old : PermissionDefinition) (id : String)
    → lookup r id ≡ some old
    → lookup (register r d).0 id ≡ some old
unfolding lookup register
register_keeps r d old id h = ground (arith, get-put r.by_id d.id id d, eq_iff d.id id)
