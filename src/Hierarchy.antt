-- ===== src/Hierarchy.antt =====
-- Role inheritance: the maps `roleInheritance` and `roleClosure` that builtInRegistry
-- (builtin_registry.go) and bootstrapStore (bootstrap_store.go) both keep, and the code on them, which
-- is the same in both.
pub mod Reach
pub mod Adding
pub mod Deleting
pub mod Expanding
use go_permissions.Base.{
  String, Bool, true, false, not, ◌&&◌, ◌||◌, List, [], ◌∷◌, Option, none, some, if◌then◌else◌,
  ◌==◌, contains_string, filter,
}
use go_permissions.Base.Text.{trim_space}
use go_permissions.Base.Maps.{Map, get, put, delete, keys}
use go_permissions.Base.Sets.{set_add, add_all, set_delete, get_set}

pub record Hierarchy : Type 0 where
  -- parent to direct children
  pub inheritance : Map (List String)
  -- ancestor to all descendants, itself among them
  pub closure : Map (List String)

abbrev pub empty : Hierarchy
empty = record { inheritance = []; closure = [] }

-- `if closure[id] == nil { closure[id] = map[string]bool{id: true} }`
unfoldable pub ensure_self : Map (List String) → String → Map (List String)
ensure_self closure id = elim (get closure id) [
  | none ↦ put closure id (id ∷ [])
  | some _ ↦ closure
]

-- what RegisterRole and CreateRole do to the closure
unfoldable pub add_role : Hierarchy → String → Hierarchy
add_role h id = record h { closure = put h.closure id (set_add (get_set h.closure id) id) }

-- the loop that collects the roles whose closure contains the parent, after the parent itself
unfoldable pub ancestors_of : Map (List String) → String → List String
unfolding filter
ancestors_of closure parent =
    parent
    ∷ filter (λ a. contains_string (get_set closure a) parent && not (a == parent)) (keys closure)

-- the loop that adds the new descendants to every ancestor. Go's `newDescendants` is the child's own
-- set, which the loop changes only by adding its own members.
unfoldable pub spread : Map (List String) → List String → List String → Map (List String)
spread closure [] fresh = closure
spread closure (a ∷ ancestors) fresh =
    spread (put closure a (add_all (get_set closure a) fresh)) ancestors fresh

-- the closure with the entries of both roles, and with the edge
unfoldable pub closure_with : Map (List String) → String → String → Map (List String)
unfolding ensure_self ancestors_of spread
closure_with closure parent child =
    let own = ensure_self (ensure_self closure parent) child in
    spread own (ancestors_of own parent) (get_set own child)

-- AddRoleInheritance, behind its checks
unfoldable pub add_edge : Hierarchy → String → String → Hierarchy
unfolding closure_with
add_edge h parent child =
    let children = get_set h.inheritance parent in
    if contains_string children child then h else record {
      inheritance = put h.inheritance parent (set_add children child);
      closure = closure_with h.closure parent child;
    }

-- `for k, set := range m { delete(set, id) }`
unfoldable pub delete_in_all : Map (List String) → String → Map (List String)
delete_in_all [] id = []
delete_in_all ((k, set) ∷ m) id = (k, set_delete set id) ∷ delete_in_all m id

-- what DeleteRole does to both maps
unfoldable pub delete_role : Hierarchy → String → Hierarchy
unfolding delete_in_all
delete_role h id = record {
  inheritance = delete_in_all (delete h.inheritance id) id;
  closure = delete_in_all (delete h.closure id) id;
}

-- one round of the loop of ExpandRoles; `seen` holds what `result` holds
unfoldable pub expand_one : Map (List String) → List String → String → List String
expand_one closure result role_id =
    let trimmed = trim_space role_id in
    if trimmed == "" then result else add_all (set_add result trimmed) (get_set closure trimmed)

unfoldable pub expand_from : Map (List String) → List String → List String → List String
unfolding expand_one
expand_from closure result [] = result
expand_from closure result (id ∷ ids) = expand_from closure (expand_one closure result id) ids

unfoldable pub expand_roles : Hierarchy → List String → List String
unfolding expand_from
expand_roles h role_ids = expand_from h.closure [] role_ids
