-- ===== src/JsonStore/Expanding.antt =====
-- transitiveExpand (jsonstore/store.go), a walk with a queue. It runs on fuel.
pub mod Ending
pub mod Reaching
use go_permissions.Base.{
  ℕ, zero, suc, ◌+◌, ◌≤◌, ◌≡◌, ◌⊎◌, ◌↔◌, ◌∙◌, refl, sym, ap, String, Bool, true, false, not, ◌&&◌,
  ◌||◌, List, [], ◌∷◌, ◌++◌, Option, none, some, arith, ◌==◌, eq_iff, eq_refl, text_cases, inl, inr,
  Bool-cases, length, filter, contains_string, contains_string-append, contains_string-filter,
  if◌then◌else◌,
}
use go_permissions.Base.Maps.{Map, get}
use go_permissions.Base.Sets.{get_set}
use go_permissions.Hierarchy.Reach.{Edge}
use go_permissions.JsonStore.{Data}

module _ (inheritance legacy : Map (List String)) where
  -- the children that a role pushes on the queue
  unfoldable pub pushed : List String → String → List String
  unfolding filter contains_string
  pushed seen current =
      filter (λ child. not (contains_string seen child)) (get_set inheritance current)
      ++ filter (λ child. not (contains_string seen child)) (get_set legacy current)

  -- the loop, on fuel; `expanded` holds what `seen` holds
  unfoldable pub walk : ℕ → List String → List String → Option (List String)
  unfolding pushed contains_string
  walk fuel expanded [] = some expanded
  walk zero expanded (current ∷ queue) = none
  walk (suc fuel) expanded (current ∷ queue) =
      let skip = walk fuel expanded queue in
      let next = expanded ++ current ∷ [] in
      let visit = walk fuel next (queue ++ pushed next current) in
      if contains_string expanded current then skip else visit

-- how many children the map has
unfoldable pub edge_count : Map (List String) → ℕ
edge_count [] = 0
edge_count ((_, children) ∷ m) = length children + edge_count m

-- transitiveExpand, with a fuel of the number of given roles and of edges
unfoldable pub transitive_expand :
    List String → Map (List String) → Map (List String) → Option (List String)
unfolding walk edge_count
transitive_expand role_ids inheritance legacy =
    walk inheritance legacy (length role_ids + edge_count inheritance + edge_count legacy) []
      role_ids

-- ListExpandedRoleIDs, ExpandRoles
unfoldable pub expand_roles : Data → List String → Option (List String)
unfolding transitive_expand
expand_roles d role_ids = transitive_expand role_ids d.role_inheritance d.role_expansion
