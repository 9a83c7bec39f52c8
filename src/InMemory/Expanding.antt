-- ===== src/InMemory/Expanding.antt =====
-- ExpandRoles of the in-memory store is reachability, whatever was set before.
use go_permissions.Base.{
  ◌≡◌, ◌≢◌, ◌∙◌, ◌↔◌, refl, String, Bool, true, false, ◌||◌, List, [], ◌∷◌, Option, arith, ◌==◌,
  any, contains_string, inl, inr, Bool-cases, eq_iff, eq_refl, text_cases, if_intro,
}
use go_permissions.Base.Maps.{get, put, get-put}
use go_permissions.Base.Sets.{get_set, set_add, add_all, contains-set_add, contains-add_all}
use go_permissions.Base.Results.{Error}
use go_permissions.Hierarchy.Reach.{Edge, Reach, here, step, Reach-mono, IsClosed}
use go_permissions.Hierarchy.Adding.{add_edge-IsClosed, add_edge-Edge}
use go_permissions.Hierarchy.Expanding.{start-Known}
use go_permissions.BuiltIn.Invariant.{empty-IsClosed}
use go_permissions.InMemory.{
  Store, new_store, add_role_inheritance, inherit_all, set_role_expansion, expand_one, expand_from,
  expand_roles,
}

-- The closure is exact, and what was set by hand is inherited as well, but for blank IDs.
pub record IsSound (s : Store) : Type 0 where
  pub closed : IsClosed s.hierarchy
  pub mirrored :
      (id d : String)
      → id ≢ ""
      → d ≢ ""
      → contains_string (get_set s.role_expansion id) d ≡ true
      → Reach s.hierarchy.inheritance id d

-- the second store has the edges of the first
abbrev Grows : Store → Store → Type 0
Grows s t = (a b : String) → Edge s.hierarchy.inheritance a b → Edge t.hierarchy.inheritance a b

module _ (s : Store) (parent child : String) where
  abbrev Keeps : Store → Type 0
  Keeps t =
      (IsClosed s.hierarchy → IsClosed t.hierarchy)
      × (Grows s t × (t.role_expansion ≡ s.role_expansion))

  abbrev Kept : Store × Option Error → Type 0
  Kept o = Keeps o.0

  stays : Keeps s
  stays = (λ v. v, (λ a b e. e, refl))

  inheritance-Keeps : Keeps (add_role_inheritance s parent child).0
  unfolding add_role_inheritance
  inheritance-Keeps =
      if_intro Kept (parent == "") (λ _. stays)
        λ _.
          if_intro Kept (child == "") (λ _. stays)
            λ _.
              if_intro Kept (parent == child) (λ _. stays)
                λ _. (
                  add_edge-IsClosed s.hierarchy parent child,
                  ((add_edge-Edge s.hierarchy parent child).1, refl),
                )

  -- after the call the child is reached, where neither ID is blank
  inheritance_reaches :
      parent ≢ ""
      → child ≢ ""
      → Reach (add_role_inheritance s parent child).0.hierarchy.inheritance parent child
  unfolding add_role_inheritance
  inheritance_reaches np nc =
      if_intro (λ (o : Store × Option Error). Reach o.0.hierarchy.inheritance parent child)
        (parent == "") (λ e. absurd (np ((eq_iff parent "").0 e)))
        λ _.
          if_intro (λ (o : Store × Option Error). Reach o.0.hierarchy.inheritance parent child)
            (child == "") (λ e. absurd (nc ((eq_iff child "").0 e)))
            λ _.
              if_intro (λ (o : Store × Option Error). Reach o.0.hierarchy.inheritance parent child)
                (parent == child) (λ e. rw (← (eq_iff parent child).0 e) here)
                λ _. step (add_edge-Edge s.hierarchy parent child).0 here

-- what the loop of SetRoleExpansion has done after some children
module _ (role_id : String) where
  loop_keeps :
      (children : List String) (s : Store)
      → (IsClosed s.hierarchy → IsClosed (inherit_all s role_id children).hierarchy)
        × (Grows s (inherit_all s role_id children)
            × ((inherit_all s role_id children).role_expansion ≡ s.role_expansion))
  unfolding inherit_all
  loop_keeps [] s = (λ v. v, (λ a b e. e, refl))
  loop_keeps (child ∷ children) s =
      let (closed, (grows, same)) = inheritance-Keeps s role_id child in
      let (closed', (grows', same')) =
        loop_keeps children (add_role_inheritance s role_id child).0 in
      (λ v. closed' (closed v), ((λ a b e. grows' a b (grows a b e)), same' ∙ same))

  loop_reaches :
      (children : List String) (s : Store) (d : String)
      → role_id ≢ ""
      → d ≢ ""
      → contains_string children d ≡ true
      → Reach (inherit_all s role_id children).hierarchy.inheritance role_id d
  unfolding inherit_all contains_string
  loop_reaches [] s d nr nd among = absurd (ground arith)
  loop_reaches (child ∷ children) s d nr nd among =
      let t = (add_role_inheritance s role_id child).0 in
      elim (text_cases child d) [
        | inr other ↦ loop_reaches children t d nr nd (ground arith)
        | inl this ↦
            let (_, (grows, _)) = loop_keeps children t in
            rw (← this) (Reach-mono grows (inheritance_reaches s role_id child nr (rw this nd)))
      ]

  -- SetRoleExpansion keeps a sound store sound, whatever the children.
  pub set_role_expansion-IsSound :
      (s : Store) (children : List String)
      → IsSound s
      → IsSound (set_role_expansion s role_id children)
  unfolding set_role_expansion get_set
  set_role_expansion-IsSound s children v =
      let t : Store = record s { role_expansion = put s.role_expansion role_id children } in
      let (closed, (grows, same)) = loop_keeps children t in
      record {
        closed = closed v.closed;
        mirrored = λ id d ni nd e. elim (text_cases role_id id) [
          | inl this ↦ rw (← this) (
              loop_reaches children t d (rw this ni) nd
                (ground (arith, get-put s.role_expansion role_id id children, eq_iff role_id id)))
          | inr other ↦ Reach-mono grows (
              v.mirrored id d ni nd (
                ground (
                  arith,
                  rw same at e,
                  get-put s.role_expansion role_id id children,
                  eq_iff role_id id,
                )))
        ];
      }

-- AddRoleInheritance keeps the store sound.
pub add_role_inheritance-IsSound :
    (s : Store) (parent child : String)
    → IsSound s
    → IsSound (add_role_inheritance s parent child).0
add_role_inheritance-IsSound s parent child v =
    let (closed, (grows, same)) = inheritance-Keeps s parent child in
    record {
      closed = closed v.closed;
      mirrored = λ id d ni nd e. Reach-mono grows (v.mirrored id d ni nd (rw same at e));
    }

-- A new store is sound.
pub new_store-IsSound : IsSound new_store
unfolding get_set contains_string get
new_store-IsSound = record {
  closed = empty-IsClosed;
  mirrored = λ id d ni nd e. absurd (ground arith);
}

-- One round adds the role, its descendants, and what was set by hand for it.
abbrev pub gives : Store → String → String → Bool
gives s d id =
    id == d
    || contains_string (get_set s.hierarchy.closure id) d
    || contains_string (get_set s.role_expansion id) d

contains-expand_one :
    (s : Store) (result : List String) (id d : String)
    → contains_string (expand_one s result id) d ≡ (contains_string result d || gives s d id)
unfolding expand_one
contains-expand_one s result id d = ground (
  arith,
  contains-add_all (add_all (set_add result id) (get_set s.hierarchy.closure id))
      (get_set s.role_expansion id) d,
  contains-add_all (set_add result id) (get_set s.hierarchy.closure id) d,
  contains-set_add result id d,
)

contains-expand_from :
    (s : Store) (result ids : List String) (d : String)
    → contains_string (expand_from s result ids) d
      ≡ (contains_string result d || any (gives s d) ids)
unfolding expand_from any
contains-expand_from s result [] d = ground arith
contains-expand_from s result (id ∷ ids) d = ground (
  arith,
  contains-expand_from s (expand_one s result id) ids d,
  contains-expand_one s result id d,
)

contains-expand_roles :
    (s : Store) (ids : List String) (d : String)
    → contains_string (expand_roles s ids) d ≡ any (gives s d) ids
unfolding expand_roles contains_string
contains-expand_roles s ids d = contains-expand_from s [] ids d

-- `d` is reached from a role of the list.
abbrev pub Root : Store → List String → String → Type 0
Root s ids d = (id : String) × (contains_string ids id ≡ true) × Reach s.hierarchy.inheritance id d

module _ (s : Store) (v : IsSound s) (d : String) (nd : d ≢ "") where
  gives-Reach : (id : String) → id ≢ "" → gives s d id ≡ true → Reach s.hierarchy.inheritance id d
  gives-Reach id ni e = elim (text_cases id d) [
    | inl same ↦ rw same here
    | inr other ↦ elim (Bool-cases (contains_string (get_set s.hierarchy.closure id) d)) [
      | inl below ↦ v.closed.sound id d below
      | inr not_below ↦ v.mirrored id d ni nd (ground arith)
    ]
  ]

  Reach-gives : (id : String) → Reach s.hierarchy.inheritance id d → gives s d id ≡ true
  Reach-gives id r = elim (start-Known s.hierarchy v.closed r) [
    | inl known ↦ ground (arith, v.closed.complete id d known r)
    | inr same ↦ ground (arith, eq_iff id d)
  ]

  roots_of :
      (ids : List String)
      → contains_string ids "" ≡ false
      → any (gives s d) ids ≡ true
      → Root s ids d
  unfolding any contains_string
  roots_of [] n e = cc
  roots_of (id ∷ ids) n e = elim (Bool-cases (gives s d id)) [
    | inl above ↦
        (id, ground (arith, eq_refl id), gives-Reach id (ground (arith, eq_iff id "")) above)
    | inr not_above ↦
        let (j, among, r) = roots_of ids (ground arith) (ground arith) in (j, ground arith, r)
  ]

  any_of_root :
      (ids : List String) (id : String)
      → contains_string ids id ≡ true
      → gives s d id ≡ true
      → any (gives s d) ids ≡ true
  unfolding any contains_string
  any_of_root [] id among e = cc
  any_of_root (j ∷ ids) id among e = elim (text_cases j id) [
    | inl same ↦ rw same (ground arith)
    | inr other ↦ ground (arith, any_of_root ids id)
  ]

  -- Where the store is sound (its closure is exact and what was set by hand is inherited as well), no given ID is blank and
  -- `d` is not, the role `d` is in the result of the in-memory ExpandRoles exactly when a given role is `d` or inherits it
  -- over some number of edges.
  pub inmemory_expand_roles-Root :
      (ids : List String)
      → contains_string ids "" ≡ false
      → (contains_string (expand_roles s ids) d ≡ true) ↔ Root s ids d
  inmemory_expand_roles-Root ids n = (
    λ e. roots_of ids n (rw contains-expand_roles at e),
    λ root.
        let (id, among, r) = root in
        rw contains-expand_roles (any_of_root ids id among (Reach-gives id r)),
  )
