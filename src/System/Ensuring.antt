-- ===== src/System/Ensuring.antt =====
-- EnsureGrantForOwner writes a grant once.
use go_permissions.Base.{
  ℕ, ◌≡◌, refl, Bool, true, false, not, ◌&&◌, [], ◌∷◌, ◌++◌, none, arith, ◌==◌, any, any-append,
  any-filter, Bool-cases, eq_refl, inl, inr,
}
use go_permissions.Base.Results.{ok}
use go_permissions.Types.{Grant, is_expired_at, validate_principal}
use go_permissions.Grants.Equivalence.{grants_equivalent, grants_equivalent_refl, HasDistinctSpec}
use go_permissions.Bootstrap
use go_permissions.Bootstrap.{grant_error, owner_of}
use go_permissions.System.{System, ensure_grant_for_owner}
use go_permissions.System.Seeding.{}

-- an active grant of the owner that is equivalent to `g`
abbrev pub is_held : Grant → ℕ → Grant → Bool
is_held g now current =
    (current.owner_kind == g.owner_kind
      && current.owner_id == g.owner_id
      && not (is_expired_at current now))
    && (not (is_expired_at current now) && grants_equivalent current g)

module _ (g : Grant) (now : ℕ) (good : grant_error g ≡ none)
    (owner : validate_principal (owner_of g) ≡ ok tt) where
  -- what a call does, by whether such a grant is held
  ensure_held :
      (s : System)
      → any (is_held g now) s.store.grants ≡ true
      → ensure_grant_for_owner s g now ≡ (s, none)
  unfolding ensure_grant_for_owner Bootstrap.grants_for_principal
  ensure_held s held = ground (
    arith,
    any-filter (λ current. not (is_expired_at current now) && grants_equivalent current g)
        (λ current.
          current.owner_kind == g.owner_kind
          && current.owner_id == g.owner_id
          && not (is_expired_at current now))
        s.store.grants,
  )

  ensure_missing :
      (s : System)
      → any (is_held g now) s.store.grants ≡ false
      → ensure_grant_for_owner s g now
        ≡ (record s { store = record s.store { grants = s.store.grants ++ g ∷ [] } }, none)
  unfolding ensure_grant_for_owner Bootstrap.grants_for_principal Bootstrap.create_grant
  ensure_missing s missing = ground (
    arith,
    any-filter (λ current. not (is_expired_at current now) && grants_equivalent current g)
        (λ current.
          current.owner_kind == g.owner_kind
          && current.owner_id == g.owner_id
          && not (is_expired_at current now))
        s.store.grants,
  )

  -- EnsureGrantForOwner succeeds on a grant that passes its checks, and a second call changes nothing, if the grant has not
  -- expired and no key stands twice in its variables.
  pub ensure_grant_for_owner_idem :
      (s : System)
      → HasDistinctSpec g.variable_spec
      → is_expired_at g now ≡ false
      → ((ensure_grant_for_owner s g now).1 ≡ none)
        × (ensure_grant_for_owner (ensure_grant_for_owner s g now).0 g now
            ≡ ((ensure_grant_for_owner s g now).0, none))
  unfolding any
  ensure_grant_for_owner_idem s d active = elim (Bool-cases (any (is_held g now) s.store.grants)) [
    | inl held ↦ rw (ensure_held s held) (refl, ensure_held s held)
    | inr missing ↦
        let own : is_held g now g ≡ true =
          ground (arith, eq_refl g.owner_kind, eq_refl g.owner_id, grants_equivalent_refl g d) in
        rw (ensure_missing s missing) (
          refl,
          ensure_held (record s { store = record s.store { grants = s.store.grants ++ g ∷ [] } })
              (ground (arith, any-append (is_held g now) s.store.grants (g ∷ []))),
        )
  ]
