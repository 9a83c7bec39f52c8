-- ===== src/JsonStore/Expanding/Ending.antt =====
-- The walk ends: each round takes one role off the queue, and its children out of those that are left.
use go_permissions.Base.{
  ℕ, zero, suc, ◌+◌, ◌≤◌, ◌≡◌, refl, String, Bool, false, not, List, [], ◌∷◌, ◌++◌, some, arith,
  eq_iff, eq_refl, text_cases, inl, inr, Bool-cases, length, filter, contains_string,
  contains_string-append, if◌then◌else◌,
}
use go_permissions.Base.Maps.{Map, get}
use go_permissions.Base.Sets.{get_set}
use go_permissions.JsonStore.Expanding.{pushed, walk, edge_count}

-- the children of the roles that are not expanded yet
weight : Map (List String) → List String → ℕ
unfolding contains_string
weight [] expanded = 0
weight ((k, children) ∷ m) expanded =
    let rest = weight m expanded in
    if contains_string expanded k then rest else length children + rest

weight_start : (m : Map (List String)) → weight m [] ≡ edge_count m
unfolding weight edge_count contains_string
weight_start [] = refl
weight_start ((k, children) ∷ m) = ground (arith, weight_start m)

weight_anti :
    (m : Map (List String)) (expanded : List String) (x : String)
    → weight m (expanded ++ x ∷ []) ≤ weight m expanded
unfolding weight
weight_anti [] expanded x = omega arith
weight_anti ((k, children) ∷ m) expanded x =
    ground (arith, weight_anti m expanded x, contains_string-append expanded (x ∷ []) k)

-- a role that is expanded takes its children out
weight_visit :
    (m : Map (List String)) (expanded : List String) (x : String)
    → contains_string expanded x ≡ false
    → weight m (expanded ++ x ∷ []) + length (get_set m x) ≤ weight m expanded
unfolding weight get_set get contains_string
weight_visit [] expanded x new = omega arith
weight_visit ((k, children) ∷ m) expanded x new = elim (text_cases k x) [
  | inl same ↦ rw same (
      ground
        (arith, weight_anti m expanded x, contains_string-append expanded (x ∷ []) x, eq_refl x))
  | inr other ↦ ground (
    arith,
    weight_visit m expanded x,
    contains_string-append expanded (x ∷ []) k,
    eq_iff k x,
    eq_iff x k,
  )
]

length-filter_le : (p : String → Bool) (xs : List String) → length (filter p xs) ≤ length xs
unfolding filter
length-filter_le p [] = omega arith
length-filter_le p (x ∷ xs) = ground (arith, length-filter_le p xs)

length-append : (xs ys : List String) → length (xs ++ ys) ≡ length xs + length ys
length-append [] ys = omega arith
length-append (x ∷ xs) ys = omega (arith, length-append xs ys)

module _ (i l : Map (List String)) where
  length-pushed :
      (seen : List String) (x : String)
      → length (pushed i l seen x) ≤ length (get_set i x) + length (get_set l x)
  unfolding pushed
  length-pushed seen x =
      let new : String → Bool = λ child. not (contains_string seen child) in
      omega (
        arith,
        length-append (filter new (get_set i x)) (filter new (get_set l x)),
        length-filter_le new (get_set i x),
        length-filter_le new (get_set l x),
      )

  abbrev pub Ends : ℕ → List String → List String → Type 0
  Ends fuel expanded queue = (out : List String) × (walk i l fuel expanded queue ≡ some out)

  -- each round takes one off the queue and the children that are left
  walk-Ends :
      (fuel : ℕ) (expanded queue : List String)
      → length queue + weight i expanded + weight l expanded ≤ fuel
      → Ends fuel expanded queue
  unfolding walk
  walk-Ends fuel expanded [] enough = (expanded, refl)
  walk-Ends zero expanded (x ∷ queue) enough = absurd (omega arith)
  walk-Ends (suc fuel) expanded (x ∷ queue) enough =
      elim (Bool-cases (contains_string expanded x)) [
        | inl old ↦ rw old (walk-Ends fuel expanded queue (omega arith))
        | inr new ↦
            let next = expanded ++ x ∷ [] in
            rw new (
              walk-Ends fuel next (queue ++ pushed i l next x) (
                omega (
                  arith,
                  length-append queue (pushed i l next x),
                  length-pushed next x,
                  weight_visit i expanded x new,
                  weight_visit l expanded x new,
                )))
      ]

  pub start-Ends : (ids : List String) → Ends (length ids + edge_count i + edge_count l) [] ids
  start-Ends ids =
      walk-Ends (length ids + edge_count i + edge_count l) [] ids
        (omega (arith, weight_start i, weight_start l))
