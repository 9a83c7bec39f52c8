-- ===== src/Hierarchy/Expanding.antt =====
-- ExpandRoles returns each role once, and exactly the roles that the given ones inherit.
use go_permissions.Base.{
  String, Bool, ◌≡◌, ◌⊎◌, ◌↔◌, inl, inr, refl, true, false, not, List, [], ◌∷◌, ◌++◌, arith, ◌==◌,
  ◌||◌, ◌&&◌, eq_iff, eq_refl, text_cases, ◌≢◌, contains_string-append, Bool-cases, contains_string,
  any,
}
use go_permissions.Base.Text.{trim_space}
use go_permissions.Base.Maps.{Map}
use go_permissions.Base.Sets.{set_add, add_all, get_set, contains-set_add, contains-add_all}
use go_permissions.Hierarchy.{Hierarchy, expand_one, expand_from, expand_roles}
use go_permissions.Hierarchy.Reach.{Reach, here, step, Known, IsClosed}

-- One round adds the trimmed role and its descendants, unless it is blank.
abbrev gives : Map (List String) → String → String → Bool
gives closure d id =
    not (trim_space id == "")
    && (trim_space id == d || contains_string (get_set closure (trim_space id)) d)

contains-expand_one :
    (closure : Map (List String)) (result : List String) (id d : String)
    → contains_string (expand_one closure result id) d
      ≡ (contains_string result d || gives closure d id)
unfolding expand_one
contains-expand_one closure result id d = ground (
  arith,
  contains-add_all (set_add result (trim_space id)) (get_set closure (trim_space id)) d,
  contains-set_add result (trim_space id) d,
)

contains-expand_from :
    (closure : Map (List String)) (result ids : List String) (d : String)
    → contains_string (expand_from closure result ids) d
      ≡ (contains_string result d || any (gives closure d) ids)
unfolding expand_from any
contains-expand_from closure result [] d = ground arith
contains-expand_from closure result (id ∷ ids) d = ground (
  arith,
  contains-expand_from closure (expand_one closure result id) ids d,
  contains-expand_one closure result id d,
)

pub contains-expand_roles :
    (h : Hierarchy) (ids : List String) (d : String)
    → contains_string (expand_roles h ids) d ≡ any (gives h.closure d) ids
unfolding expand_roles contains_string
contains-expand_roles h ids d = contains-expand_from h.closure [] ids d

-- `d` is reached from a role of the list that is not blank.
abbrev pub Root : Map (List String) → List String → String → Type 0
Root inheritance ids d =
    (id : String) × (contains_string ids id ≡ true)
    × (trim_space id ≢ "")
    × Reach inheritance (trim_space id) d

module _ (h : Hierarchy) (v : IsClosed h) where
  root-Reach : (id d : String) → gives h.closure d id ≡ true → Reach h.inheritance (trim_space id) d
  root-Reach id d e = elim (text_cases (trim_space id) d) [
    | inl same ↦ rw same here
    | inr other ↦ v.sound (trim_space id) d (ground arith)
  ]

  roots_of :
      (ids : List String) (d : String)
      → any (gives h.closure d) ids ≡ true
      → Root h.inheritance ids d
  unfolding any contains_string
  roots_of [] d e = cc
  roots_of (id ∷ ids) d e = elim (Bool-cases (gives h.closure d id)) [
    | inl yes_id ↦ (
      id,
      ground (arith, eq_refl id),
      ground (arith, eq_iff (trim_space id) ""),
      root-Reach id d yes_id,
    )
    | inr no_id ↦
        let (j, among, named, r) = roots_of ids d (ground arith) in (j, ground arith, named, r)
  ]

  Reach-gives :
      (id d : String)
      → Known h (trim_space id) ⊎ (trim_space id ≡ d)
      → trim_space id ≢ ""
      → Reach h.inheritance (trim_space id) d
      → gives h.closure d id ≡ true
  Reach-gives id d (inl known) named r =
      ground (arith, v.complete (trim_space id) d known r, eq_iff (trim_space id) "")
  Reach-gives id d (inr same) named r =
      ground (arith, eq_iff (trim_space id) d, eq_iff (trim_space id) "")

  -- what an edge starts from is known, and so is what a longer way starts from
  pub start-Known : {a d : String} → Reach h.inheritance a d → Known h a ⊎ (a ≡ d)
  start-Known here = inr refl
  start-Known (step {a = a} {b = b} e r) = inl (v.ends a b e).0

  any_of_root :
      (ids : List String) (id d : String)
      → contains_string ids id ≡ true
      → gives h.closure d id ≡ true
      → any (gives h.closure d) ids ≡ true
  unfolding any contains_string
  any_of_root [] id d among e = cc
  any_of_root (j ∷ ids) id d among e = elim (text_cases j id) [
    | inl same ↦ rw same (ground arith)
    | inr other ↦ ground (arith, any_of_root ids id d)
  ]

  -- Where the closure is exact, a role is in the result of ExpandRoles exactly when a given role, trimmed and not blank, is that
  -- role or inherits it over some number of edges.
  pub expand_roles-Root :
      (ids : List String) (d : String)
      → (contains_string (expand_roles h ids) d ≡ true) ↔ Root h.inheritance ids d
  expand_roles-Root ids d = (
    λ e. roots_of ids d (rw contains-expand_roles at e),
    λ root.
        let (id, among, named, r) = root in
        rw contains-expand_roles
          (any_of_root ids id d among (Reach-gives id d (start-Known r) named r)),
  )

-- No text stands twice in the list.
abbrev pub IsDistinct : List String → Type 0
IsDistinct [] = Unit
IsDistinct (x ∷ xs) = (contains_string xs x ≡ false) × IsDistinct xs

snoc-IsDistinct :
    (xs : List String) (x : String)
    → IsDistinct xs
    → contains_string xs x ≡ false
    → IsDistinct (xs ++ x ∷ [])
unfolding contains_string
snoc-IsDistinct [] x d absent = (refl, tt)
snoc-IsDistinct (y ∷ xs) x d absent = (
  ground (arith, contains_string-append xs (x ∷ []) y, eq_iff x y, eq_iff y x),
  snoc-IsDistinct xs x d.1 (ground arith),
)

set_add-IsDistinct : (xs : List String) (x : String) → IsDistinct xs → IsDistinct (set_add xs x)
unfolding set_add
set_add-IsDistinct xs x d = elim (Bool-cases (contains_string xs x)) [
  | inl old ↦ rw old d
  | inr new ↦ rw new (snoc-IsDistinct xs x d new)
]

add_all-IsDistinct : (xs ys : List String) → IsDistinct xs → IsDistinct (add_all xs ys)
unfolding add_all
add_all-IsDistinct xs [] d = d
add_all-IsDistinct xs (y ∷ ys) d = add_all-IsDistinct (set_add xs y) ys (set_add-IsDistinct xs y d)

expand_one-IsDistinct :
    (closure : Map (List String)) (result : List String) (id : String)
    → IsDistinct result
    → IsDistinct (expand_one closure result id)
unfolding expand_one
expand_one-IsDistinct closure result id d = elim (Bool-cases (trim_space id == "")) [
  | inl blank ↦ rw blank d
  | inr named ↦ rw named (
      add_all-IsDistinct _ (get_set closure (trim_space id))
        (set_add-IsDistinct result (trim_space id) d))
]

expand_from-IsDistinct :
    (closure : Map (List String)) (result ids : List String)
    → IsDistinct result
    → IsDistinct (expand_from closure result ids)
unfolding expand_from
expand_from-IsDistinct closure result [] d = d
expand_from-IsDistinct closure result (id ∷ ids) d =
    expand_from-IsDistinct closure (expand_one closure result id) ids
      (expand_one-IsDistinct closure result id d)

-- ExpandRoles returns no role twice.
pub expand_roles-IsDistinct : (h : Hierarchy) (ids : List String) → IsDistinct (expand_roles h ids)
unfolding expand_roles
expand_roles-IsDistinct h ids = expand_from-IsDistinct h.closure [] ids tt
