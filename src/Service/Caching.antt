-- ===== src/Service/Caching.antt =====
-- The cache of disabled roles and the memo of expansions do not change what an evaluation sees.
use mathlib.Core.Path.{subst}
use go_permissions.Base.{
  ℕ, ◌≡◌, refl, inl, inr, String, List, [], ◌∷◌, none, some, arith, contains_string, filter,
  Option-cases, text_cases, eq_iff, ◌∙◌, ap, sym,
}
use go_permissions.Base.Maps.{get, put, get-put}
use go_permissions.Base.Results.{Error, Result, ok, err, Result-cases}
use go_permissions.Service.State.{
  Service, DisabledCache, get_disabled_built_in_roles, or_empty, role_definition, with_disabled,
}
use go_permissions.Service.Expansion.{
  Progress, says_disabled, keep_enabled, inherited, expand_roles_cached,
}
use go_permissions.Service.Ballot.{disabled_now, is_disabled_role, enabled, expansion}

module _ (s : Service) (now : ℕ) where
  -- The list that getDisabledBuiltInRoles answers is the one in view, and it leaves that view as it was.
  pub get_disabled-disabled_now :
      (c : DisabledCache)
      → (or_empty (get_disabled_built_in_roles s now c).0 ≡ disabled_now s now c)
        × (disabled_now s now (get_disabled_built_in_roles s now c).1 ≡ disabled_now s now c)
  unfolding get_disabled_built_in_roles disabled_now
  get_disabled-disabled_now c = (ground arith, ground arith)

  pub role_definition-disabled_now :
      (c : DisabledCache) (id : String)
      → (says_disabled (role_definition s now c id).0
          ≡ is_disabled_role s (disabled_now s now c) id)
        × (disabled_now s now (role_definition s now c id).1 ≡ disabled_now s now c)
  unfolding role_definition is_disabled_role with_disabled says_disabled
  role_definition-disabled_now c id =
      let (same, kept) = get_disabled-disabled_now c in
      (ground (arith, ap (λ l. contains_string l id) same), ground (arith, kept))

  keep_enabled-enabled :
      (ids : List String) (c : DisabledCache)
      → ((keep_enabled s now (disabled_now s now c) ids c).0 ≡ enabled s (disabled_now s now c) ids)
        × (disabled_now s now (keep_enabled s now (disabled_now s now c) ids c).1
            ≡ disabled_now s now c)
  unfolding keep_enabled enabled filter
  keep_enabled-enabled [] c = (refl, refl)
  keep_enabled-enabled (id ∷ ids) c =
      let c' = (role_definition s now c id).1 in
      let (same, kept) = role_definition-disabled_now c id in
      let (rest, kept_rest) = keep_enabled-enabled ids c in
      let later = keep_enabled-enabled ids c' in
      let moved : ((keep_enabled s now (disabled_now s now c) ids c').0
            ≡ enabled s (disabled_now s now c) ids)
          × (disabled_now s now (keep_enabled s now (disabled_now s now c) ids c').1
              ≡ disabled_now s now c) =
        rw kept at later in
      (ground (arith, moved.0), ground (arith, moved.1))

-- The cache shows the list `disabled`, and each memoised expansion is the one that the roles now have.
pub record IsCoherent (s : Service) (now : ℕ) (disabled : List String) (p : Progress) : Type 0 where
  pub view : disabled_now s now p.cache ≡ disabled
  pub memo :
      (root : String) (ids : List String)
      → get p.expanded root ≡ some ids
      → expansion s disabled root ≡ ok ids

module _ (s : Service) (now : ℕ) (disabled : List String) where
  pub IsCoherent-start :
      (c : DisabledCache)
      → disabled_now s now c ≡ disabled
      → IsCoherent s now disabled (record { cache = c; expanded = [] })
  unfolding get
  IsCoherent-start c e = record { view = e; memo = λ root ids h. absurd (empty_memo h) }
    where
      empty_memo : {ids : List String} → none ≡ some ids → ⊥
      empty_memo h = cc

  keep_lemma :
      (ids D : List String) (c : DisabledCache)
      → D ≡ disabled
      → disabled_now s now c ≡ disabled
      → ((keep_enabled s now D ids c).0 ≡ enabled s disabled ids)
        × (disabled_now s now (keep_enabled s now D ids c).1 ≡ disabled)
  keep_lemma ids D c e v = rw e (rw v at (keep_enabled-enabled s now ids c))

  module _ (root : String) (p : Progress) (co : IsCoherent s now disabled p) where
    -- the cache after the list was read, and the list
    abbrev read : DisabledCache
    read = (get_disabled_built_in_roles s now p.cache).1

    abbrev listed : List String
    listed = or_empty (get_disabled_built_in_roles s now p.cache).0

    read_view : disabled_now s now read ≡ disabled
    read_view = (get_disabled-disabled_now s now p.cache).1 ∙ co.view

    listed_view : listed ≡ disabled
    listed_view = (get_disabled-disabled_now s now p.cache).0 ∙ co.view

    -- what the request carries along after a miss that succeeds
    abbrev settled : List String → Progress
    settled ids = record {
      cache = (keep_enabled s now listed ids read).1;
      expanded = put p.expanded root (keep_enabled s now listed ids read).0;
    }

    settled-IsCoherent :
        (ids : List String) → inherited s root ≡ ok ids → IsCoherent s now disabled (settled ids)
    unfolding expansion
    settled-IsCoherent ids found =
        let (kept, view) = keep_lemma ids listed read listed_view read_view in
        record {
          view = view;
          memo = λ r ids' h. elim (text_cases root r) [
            | inl same ↦ rw (← same) (
                ground (
                  arith,
                  found,
                  get-put p.expanded root r (keep_enabled s now listed ids read).0,
                  eq_iff root r,
                ))
            | inr other ↦
                co.memo r ids'
                  (ground (arith, get-put p.expanded root r (keep_enabled s now listed ids read).0))
          ];
        }

    miss_fails :
        (e : Error)
        → get p.expanded root ≡ none
        → inherited s root ≡ err e
        → expand_roles_cached s now root p ≡ (err e, record p { cache = read })
    unfolding expand_roles_cached
    miss_fails e miss failed = ground arith

    miss_succeeds :
        (ids : List String)
        → get p.expanded root ≡ none
        → inherited s root ≡ ok ids
        → expand_roles_cached s now root p
          ≡ (ok (keep_enabled s now listed ids read).0, settled ids)
    unfolding expand_roles_cached
    miss_succeeds ids miss found = ground arith

    hit :
        (ids : List String)
        → get p.expanded root ≡ some ids
        → expand_roles_cached s now root p ≡ (ok ids, p)
    unfolding expand_roles_cached
    hit ids h = ground arith

    -- What the step answers, and that it stays coherent.
    abbrev Settles : Result (List String) × Progress → Type 0
    Settles o = (o.0 ≡ expansion s disabled root) × IsCoherent s now disabled o.1

    failure-Settles :
        (e : Error) → inherited s root ≡ err e → Settles (err e, record p { cache = read })
    unfolding expansion
    failure-Settles e failed = (rw failed, record { view = read_view; memo = co.memo })

    success-Settles :
        (ids : List String)
        → inherited s root ≡ ok ids
        → Settles (ok (keep_enabled s now listed ids read).0, settled ids)
    unfolding expansion
    success-Settles ids found = (
      rw (found, (keep_lemma ids listed read listed_view read_view).0),
      settled-IsCoherent ids found,
    )

    -- With a coherent cache and memo, expandRolesCached answers what the roles now expand to, and stays coherent.
    pub expand_roles_cached-expansion : Settles (expand_roles_cached s now root p)
    expand_roles_cached-expansion = elim (Option-cases (get p.expanded root)) [
      | inr (ids, h) ↦ subst Settles (sym (hit ids h)) (sym (co.memo root ids h), co)
      | inl miss ↦ elim (Result-cases (inherited s root)) [
        | inr (e, failed) ↦
            subst Settles (sym (miss_fails e miss failed)) (failure-Settles e failed)
        | inl (ids, found) ↦
            subst Settles (sym (miss_succeeds ids miss found)) (success-Settles ids found)
      ]
    ]
