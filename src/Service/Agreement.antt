-- ===== src/Service/Agreement.antt =====
-- ExpandRoles answers callers what an evaluation sees.
use mathlib.Core.List.{append-nil}
use go_permissions.Base.{
  if◌then◌else◌, ℕ, ◌≡◌, refl, String, not, ◌&&◌, List, [], ◌∷◌, arith, contains_string, filter,
  Bool-cases, inl, inr, eq_iff, contains_string-filter, false, ◌∙◌,
}
use go_permissions.Base.Results.{Error, Result, ok, err, Result-cases}
use go_permissions.Service.State.{
  Service, DisabledCache, get_disabled_built_in_roles, or_empty, role_definition,
}
use go_permissions.Service.Expansion.{says_disabled, inherited}
use go_permissions.Service.Ballot.{disabled_now, is_disabled_role, enabled, expansion}
use go_permissions.Service.Caching.{get_disabled-disabled_now, role_definition-disabled_now}
use go_permissions.Service.Querying.{keep_unseen, inherited_by, expand_roles}

-- for one role the store and the registry are asked alike
inherited_by_one : (s : Service) (root : String) → inherited_by s (root ∷ []) ≡ inherited s root
unfolding inherited_by inherited filter
inherited_by_one s root = elim (Result-cases (s.permissions.expand_roles (root ∷ []))) [
  | inl (ids, found) ↦ ground (arith, append-nil ids)
  | inr (e, failed) ↦ ground arith
]

-- both fail with the same error, or both succeed with the same roles
abbrev pub SameRoles : Result (List String) → Result (List String) → Type 0
SameRoles (ok xs) (ok ys) = (id : String) → contains_string xs id ≡ contains_string ys id
SameRoles (err e) (err f) = e ≡ f
SameRoles (ok xs) (err f) = ⊥
SameRoles (err e) (ok ys) = ⊥

module _ (s : Service) (now : ℕ) (disabled : List String) where
  -- one round of the loop
  keep_unseen_round :
      (x : String) (ids seen : List String) (c : DisabledCache)
      → (keep_unseen s now disabled (x ∷ ids) seen c).0 ≡ (
          if contains_string seen x
          then (keep_unseen s now disabled ids seen c).0
          else if contains_string disabled x
          then (keep_unseen s now disabled ids (x ∷ seen) c).0
          else if says_disabled (role_definition s now c x).0
          then (keep_unseen s now disabled ids (x ∷ seen) (role_definition s now c x).1).0
          else x ∷ (keep_unseen s now disabled ids (x ∷ seen) (role_definition s now c x).1).0)
  unfolding keep_unseen
  keep_unseen_round x ids seen c = elim (Bool-cases (contains_string seen x)) [
    | inl h ↦ rw h refl
    | inr h ↦ rw h (elim (Bool-cases (contains_string disabled x)) [
      | inl k ↦ rw k refl
      | inr k ↦ rw k (elim (Bool-cases (says_disabled (role_definition s now c x).0)) [
        | inl l ↦ rw l refl
        | inr l ↦ rw l refl
      ])
    ])
  ]

  contains-enabled :
      (ids : List String) (id : String)
      → contains_string (enabled s disabled ids) id ≡ (
          contains_string ids id
          && (not (contains_string disabled id) && not (is_disabled_role s disabled id)))
  unfolding enabled
  contains-enabled ids id =
      contains_string-filter
        (λ id. not (contains_string disabled id) && not (is_disabled_role s disabled id)) ids id

  keep_unseen_end :
      (seen : List String) (c : DisabledCache) (id : String)
      → contains_string (keep_unseen s now disabled [] seen c).0 id ≡ false
  unfolding keep_unseen contains_string
  keep_unseen_end seen c id = refl

  contains-keep_unseen :
      (ids seen : List String) (c : DisabledCache) (id : String)
      → disabled_now s now c ≡ disabled
      → contains_string (keep_unseen s now disabled ids seen c).0 id
        ≡ (contains_string (enabled s disabled ids) id && not (contains_string seen id))
  unfolding enabled filter contains_string
  contains-keep_unseen [] seen c id view = keep_unseen_end seen c id
  contains-keep_unseen (x ∷ ids) seen c id view =
      let c' = (role_definition s now c x).1 in
      let (same, kept) = role_definition-disabled_now s now c x in
      let same' : says_disabled (role_definition s now c x).0 ≡ is_disabled_role s disabled x =
        rw view at same in
      rw (keep_unseen_round x ids seen c) (
        ground (
          arith,
          same',
          eq_iff x id,
          contains-enabled ids id,
          contains-keep_unseen ids seen c id view,
          contains-keep_unseen ids (x ∷ seen) c id view,
          contains-keep_unseen ids (x ∷ seen) c' id (kept ∙ view),
        ))

  module _ (root : String) (c : DisabledCache) (view : disabled_now s now c ≡ disabled) where
    -- the list that was read, and the cache after that
    abbrev listed : List String
    listed = or_empty (get_disabled_built_in_roles s now c).0

    abbrev read : DisabledCache
    read = (get_disabled_built_in_roles s now c).1

    expand_found :
        (ids : List String)
        → inherited_by s (root ∷ []) ≡ ok ids
        → (expand_roles s now (root ∷ []) c).0 ≡ ok (keep_unseen s now listed ids [] read).0
    unfolding expand_roles
    expand_found ids found = ground (arith, found)

    expand_failed :
        (e : Error)
        → inherited_by s (root ∷ []) ≡ err e
        → (expand_roles s now (root ∷ []) c).0 ≡ err e
    unfolding expand_roles
    expand_failed e failed = ground (arith, failed)

    kept_alike :
        (ids : List String) (id : String)
        → contains_string (keep_unseen s now listed ids [] read).0 id
          ≡ contains_string (enabled s disabled ids) id
    unfolding contains_string
    kept_alike ids id =
        let (same, kept) = get_disabled-disabled_now s now c in
        let alike = contains-keep_unseen ids [] read id (kept ∙ view) in
        rw (same ∙ view) (ground (arith, alike))

    -- With the list of disabled roles in view of the cache, ExpandRoles of one role gives the roles that an evaluation goes by
    -- for an assignment of it, and fails with the same error when that fails.
    pub expand_roles-expansion :
        SameRoles (expand_roles s now (root ∷ []) c).0 (expansion s disabled root)
    unfolding expansion
    expand_roles-expansion = elim (Result-cases (inherited s root)) [
      | inl (ids, found) ↦
          rw (expand_found ids (inherited_by_one s root ∙ found)) (rw found (kept_alike ids))
      | inr (e, failed) ↦ rw (expand_failed e (inherited_by_one s root ∙ failed)) (rw failed refl)
    ]
