-- ===== src/JsonStore/Expanding/Reaching.antt =====
-- The walk finds exactly what the roles inherit.
use go_permissions.Base.{
  ℕ, zero, suc, ◌+◌, ◌≡◌, ◌⊎◌, ◌↔◌, String, Bool, true, not, ◌&&◌, ◌||◌, List, [], ◌∷◌, ◌++◌, some,
  arith, ◌==◌, eq_refl, text_cases, inl, inr, Bool-cases, length, filter, contains_string,
  contains_string-append, contains_string-filter,
}
use go_permissions.Base.Maps.{Map}
use go_permissions.Base.Sets.{get_set}
use go_permissions.JsonStore.Expanding.{pushed, walk, edge_count, transitive_expand}
use go_permissions.JsonStore.Expanding.Ending.{start-Ends}

-- `b` is a direct child of `a`, by an edge or by hand
abbrev pub linked : Map (List String) → Map (List String) → String → String → Bool
linked i l a b = contains_string (get_set i a) b || contains_string (get_set l a) b

-- `d` is `a` or a descendant of it
pub data Inherits (i l : Map (List String)) : String → String → Type 0 where
  self : {a : String} → Inherits i l a a
  child : {a b d : String} → linked i l a b ≡ true → Inherits i l b d → Inherits i l a d

module _ (i l : Map (List String)) where
  contains-pushed :
      (seen : List String) (x y : String)
      → contains_string (pushed i l seen x) y ≡ (linked i l x y && not (contains_string seen y))
  unfolding pushed
  contains-pushed seen x y =
      let new : String → Bool = λ c. not (contains_string seen c) in
      ground (
        arith,
        contains_string-append (filter new (get_set i x)) (filter new (get_set l x)) y,
        contains_string-filter new (get_set i x) y,
        contains_string-filter new (get_set l x) y,
      )

  contains-next :
      (expanded : List String) (x y : String)
      → contains_string (expanded ++ x ∷ []) y ≡ (contains_string expanded y || x == y)
  unfolding contains_string
  contains-next expanded x y = ground (arith, contains_string-append expanded (x ∷ []) y)

  -- what is found comes from the queue
  abbrev From : List String → List String → String → Type 0
  From expanded queue y =
      (contains_string expanded y ≡ true)
      ⊎ ((id : String) × (contains_string queue id ≡ true) × Inherits i l id y)

  walk_sound :
      (fuel : ℕ) (expanded queue out : List String) (y : String)
      → walk i l fuel expanded queue ≡ some out
      → contains_string out y ≡ true
      → From expanded queue y
  unfolding walk contains_string
  walk_sound fuel expanded [] out y e found = inl (ground arith)
  walk_sound zero expanded (x ∷ queue) out y e found = absurd (ground arith)
  walk_sound (suc fuel) expanded (x ∷ queue) out y e found =
      elim (Bool-cases (contains_string expanded x)) [
        | inl old ↦ elim (walk_sound fuel expanded queue out y (ground arith) found) [
          | inl before ↦ inl before
          | inr (id, among, r) ↦ inr (id, ground arith, r)
        ]
        | inr new ↦
            let next = expanded ++ x ∷ [] in
            elim (walk_sound fuel next (queue ++ pushed i l next x) out y (ground arith) found) [
              | inl before ↦ elim (text_cases x y) [
                | inl same ↦ inr (x, ground (arith, eq_refl x), rw same self)
                | inr other ↦ inl (ground (arith, contains-next expanded x y))
              ]
              | inr (id, among, r) ↦ elim (Bool-cases (contains_string queue id)) [
                | inl waiting ↦ inr (id, ground arith, r)
                | inr fresh ↦
                    let edge : linked i l x id ≡ true = ground (
                      arith,
                      contains_string-append queue (pushed i l next x) id,
                      contains-pushed next x id,
                    ) in
                    inr (x, ground (arith, eq_refl x), child edge r)
              ]
            ]
      ]

  -- the children of what is expanded are expanded or wait
  abbrev Closed : List String → List String → Type 0
  Closed expanded queue =
      (a b : String)
      → contains_string expanded a ≡ true
      → linked i l a b ≡ true
      → (contains_string expanded b || contains_string queue b) ≡ true

  abbrev Covers : List String → List String → List String → Type 0
  Covers expanded queue out =
      ((y : String)
        → (contains_string expanded y || contains_string queue y) ≡ true
        → contains_string out y ≡ true)
      × ((a b : String)
          → contains_string out a ≡ true
          → linked i l a b ≡ true
          → contains_string out b ≡ true)

  walk-Covers :
      (fuel : ℕ) (expanded queue out : List String)
      → walk i l fuel expanded queue ≡ some out
      → Closed expanded queue
      → Covers expanded queue out
  unfolding walk contains_string
  walk-Covers fuel expanded [] out e v =
      let same : expanded ≡ out = ground arith in
      rw (← same) (λ y h. ground arith, λ a b h edge. ground (arith, v a b))
  walk-Covers zero expanded (x ∷ queue) out e v = absurd (ground arith)
  walk-Covers (suc fuel) expanded (x ∷ queue) out e v =
      elim (Bool-cases (contains_string expanded x)) [
        | inl old ↦
            let (cover, closed) = walk-Covers fuel expanded queue out (ground arith) (λ a b h edge.
              elim (text_cases x b) [
                | inl same ↦ rw (← same) (ground arith)
                | inr other ↦ ground (arith, v a b)
              ]) in
            (
              λ y h. elim (text_cases x y) [
                | inl same ↦ cover y (rw (← same) (ground arith))
                | inr other ↦ cover y (ground arith)
              ],
              closed,
            )
        | inr new ↦
            let next = expanded ++ x ∷ [] in
            let (cover, closed) =
              walk-Covers fuel next (queue ++ pushed i l next x) out (ground arith) (λ a b h edge.
                elim (text_cases x a) [
                  | inl same ↦
                      let from_x : linked i l x b ≡ true = rw same edge in
                      ground (
                        arith,
                        contains_string-append queue (pushed i l next x) b,
                        contains-pushed next x b,
                      )
                  | inr other ↦ ground (
                    arith,
                    v a b,
                    contains-next expanded x a,
                    contains-next expanded x b,
                    contains_string-append queue (pushed i l next x) b,
                  )
                ]) in
            (
              λ y h. cover y (
                  ground (
                    arith,
                    contains-next expanded x y,
                    contains_string-append queue (pushed i l next x) y,
                  )),
              closed,
            )
      ]

  reached :
      (out : List String)
      → ((a b : String)
          → contains_string out a ≡ true
          → linked i l a b ≡ true
          → contains_string out b ≡ true)
      → {a d : String} → Inherits i l a d
      → contains_string out a ≡ true
      → contains_string out d ≡ true
  reached out closed self h = h
  reached out closed (child {a = a} {b = b} edge r) h = reached out closed r (closed a b h edge)

  -- `d` is one of the roles or a descendant of one
  abbrev pub Heir : List String → String → Type 0
  Heir ids d = (id : String) × (contains_string ids id ≡ true) × Inherits i l id d

  heirs :
      (fuel : ℕ) (ids out : List String)
      → walk i l fuel [] ids ≡ some out
      → (d : String) → (contains_string out d ≡ true) ↔ Heir ids d
  unfolding contains_string
  heirs fuel ids out e d =
      let (cover, closed) = walk-Covers fuel [] ids out e (λ a b h edge. absurd (ground arith)) in
      (
        λ h. elim (walk_sound fuel [] ids out d e h) [
          | inl none_yet ↦ absurd (ground arith)
          | inr heir ↦ heir
        ],
        λ heir. let (id, among, r) = heir in reached out closed r (cover id (ground arith)),
      )

  -- transitiveExpand ends, with as many rounds as there are given roles and edges in both maps; and what it returns holds a
  -- role exactly when that role is a given one or a descendant of one over the edges of both maps.
  pub transitive_expand-Heir :
      (ids : List String)
      → (out : List String) × (transitive_expand ids i l ≡ some out)
        × ((d : String) → (contains_string out d ≡ true) ↔ Heir ids d)
  unfolding transitive_expand
  transitive_expand-Heir ids =
      let (out, ends) = start-Ends i l ids in
      (out, ends, heirs (length ids + edge_count i + edge_count l) ids out ends)
