-- ===== src/System/Batches.antt =====
-- EnsureGrantsForOwners (service.go): the grants of a batch that the owners do not hold are written
-- together.
use mathlib.Core.List.{append-nil, append_assoc}
use go_permissions.Base.{
  ℕ, ◌≡◌, refl, Bool, true, false, not, ◌&&◌, List, [], ◌∷◌, ◌++◌, Option, none, some, arith,
  if◌then◌else◌, ◌==◌, any, any-append, any-filter, filter, All, Bool-cases, eq_refl, inl, inr,
  is_empty,
}
use go_permissions.Base.Results.{Error, Result, ok, err, ◌>>=◌}
use go_permissions.Types.{Grant, is_expired_at, validate_principal}
use go_permissions.Grants.Equivalence.{grants_equivalent, grants_equivalent_refl, HasDistinctSpec}
use go_permissions.Bootstrap
use go_permissions.Bootstrap.{Store, grant_error, owner_of}
use go_permissions.System.{System, create_grants, first_error}
use go_permissions.System.Ensuring.{is_held}

-- the loop: `exists` of one round
unfoldable pub exists_already : Store → Grant → ℕ → Result Bool
exists_already s g now = elim (grant_error g) [
  | some e ↦ err e
  | none ↦ validate_principal (owner_of g) >>= λ _.
      Bootstrap.grants_for_principal s (owner_of g) now >>= λ existing.
      ok (any (λ current. not (is_expired_at current now) && grants_equivalent current g) existing)
]

-- the loop that collects `missing`
unfoldable pub missing_grants : Store → List Grant → ℕ → Result (List Grant)
unfolding exists_already
missing_grants s [] now = ok []
missing_grants s (g ∷ grants) now = exists_already s g now >>= λ exists.
    missing_grants s grants now >>= λ missing. ok (if exists then missing else g ∷ missing)

-- EnsureGrantsForOwners
unfoldable pub ensure_grants_for_owners : System → List Grant → ℕ → System × Option Error
unfolding missing_grants
ensure_grants_for_owners s grants now =
    if is_empty grants then (s, none) else elim (missing_grants s.store grants now) [
      | err e ↦ (s, some e)
      | ok missing ↦ create_grants s missing
    ]

-- a grant that the method accepts, and whose copy it would find again
pub record IsEnsurable (now : ℕ) (g : Grant) : Type 0 where
  pub complete : grant_error g ≡ none
  pub owner : validate_principal (owner_of g) ≡ ok tt
  pub active : is_expired_at g now ≡ false
  pub distinct : HasDistinctSpec g.variable_spec

-- the store holds no active equivalent of the grant
abbrev is_missing : List Grant → ℕ → Grant → Bool
is_missing held now g = not (any (is_held g now) held)

exists_already_lem :
    (s : Store) (g : Grant) (now : ℕ)
    → IsEnsurable now g
    → exists_already s g now ≡ ok (any (is_held g now) s.grants)
unfolding exists_already Bootstrap.grants_for_principal
exists_already_lem s g now i = ground (
  arith,
  i.complete,
  i.owner,
  any-filter (λ current. not (is_expired_at current now) && grants_equivalent current g)
      (λ current.
        current.owner_kind == g.owner_kind
        && current.owner_id == g.owner_id
        && not (is_expired_at current now))
      s.grants,
)

missing_grants_lem :
    (s : Store) (grants : List Grant) (now : ℕ)
    → All (IsEnsurable now) grants
    → missing_grants s grants now ≡ ok (filter (is_missing s.grants now) grants)
unfolding missing_grants filter
missing_grants_lem s [] now i = refl
missing_grants_lem s (g ∷ grants) now i =
    ground (arith, exists_already_lem s g now i.0, missing_grants_lem s grants now i.1)

abbrev IsComplete : Grant → Type 0
IsComplete g = grant_error g ≡ none

filter-IsComplete :
    (test : Grant → Bool) (grants : List Grant) (now : ℕ)
    → All (IsEnsurable now) grants
    → All IsComplete (filter test grants)
unfolding filter
filter-IsComplete test [] now i = tt
filter-IsComplete test (g ∷ grants) now i =
    let rest = filter-IsComplete test grants now i.1 in
    elim (Bool-cases (test g)) [
      | inl kept ↦ rw kept (i.0.complete, rest)
      | inr dropped ↦ rw dropped rest
    ]

first_error-none : (grants : List Grant) → All IsComplete grants → first_error grants ≡ none
unfolding first_error
first_error-none [] c = refl
first_error-none (g ∷ grants) c = ground (arith, c.0, first_error-none grants c.1)

store_all :
    (s : Store) (grants : List Grant)
    → All IsComplete grants
    → Bootstrap.create_grants s grants ≡ (record s { grants = s.grants ++ grants }, none)
unfolding Bootstrap.create_grants
store_all s [] c = rw (append-nil s.grants) refl
store_all s (g ∷ grants) c = ground (
  arith,
  c.0,
  store_all (record s { grants = s.grants ++ g ∷ [] }) grants c.1,
  append_assoc s.grants (g ∷ []) grants,
)

-- complete grants are written whole
create_complete :
    (s : System) (grants : List Grant)
    → All IsComplete grants
    → create_grants s grants
      ≡ (record s { store = record s.store { grants = s.store.grants ++ grants } }, none)
unfolding create_grants
create_complete s [] c = rw (append-nil s.store.grants) refl
create_complete s (g ∷ grants) c =
    rw (first_error-none (g ∷ grants) c) (rw (store_all s.store (g ∷ grants) c) refl)

ensure_lem :
    (s : System) (grants : List Grant) (now : ℕ)
    → All (IsEnsurable now) grants
    → ensure_grants_for_owners s grants now ≡ (
      record s {
        store = record s.store {
          grants = s.store.grants ++ filter (is_missing s.store.grants now) grants;
        };
      },
      none,
    )
unfolding ensure_grants_for_owners filter
ensure_lem s [] now i = rw (append-nil s.store.grants) refl
ensure_lem s (g ∷ grants) now i = rw (missing_grants_lem s.store (g ∷ grants) now i) (
    create_complete s (filter (is_missing s.store.grants now) (g ∷ grants))
      (filter-IsComplete (is_missing s.store.grants now) (g ∷ grants) now i))

-- what the write leaves missing
none_missing :
    (held full grants : List Grant) (now : ℕ)
    → All (IsEnsurable now) grants
    → ((p : Grant → Bool) → any p held ≡ true → any p full ≡ true)
    → ((p : Grant → Bool) → any p (filter (is_missing held now) grants) ≡ true → any p full ≡ true)
    → filter (is_missing full now) grants ≡ []
unfolding filter any
none_missing held full [] now i old new = refl
none_missing held full (g ∷ grants) now i old new =
    let own : is_held g now g ≡ true = ground (
      arith,
      i.0.active,
      eq_refl g.owner_kind,
      eq_refl g.owner_id,
      grants_equivalent_refl g i.0.distinct,
    ) in
    let there : any (is_held g now) full ≡ true =
      ground (arith, own, old (is_held g now), new (is_held g now)) in
    let rest = none_missing held full grants now i.1 old (λ p h. new p (ground (arith, h))) in
    ground (arith, there, rest)

-- EnsureGrantsForOwners succeeds on a batch whose grants pass its checks, and a second call with the same batch changes
-- nothing, if no grant of it has expired and no key stands twice in the variables of one.
pub ensure_grants_for_owners_idem :
    (s : System) (grants : List Grant) (now : ℕ)
    → All (IsEnsurable now) grants
    → ((ensure_grants_for_owners s grants now).1 ≡ none)
      × (ensure_grants_for_owners (ensure_grants_for_owners s grants now).0 grants now
          ≡ ((ensure_grants_for_owners s grants now).0, none))
ensure_grants_for_owners_idem s grants now i =
    let held = s.store.grants in
    let new = filter (is_missing held now) grants in
    let after : System = record s { store = record s.store { grants = held ++ new } } in
    let again : ensure_grants_for_owners after grants now ≡ (after, none) =
      rw (ensure_lem after grants now i) (
        rw
          (none_missing held (held ++ new) grants now i
            (λ p h. ground (arith, h, any-append p held new))
            (λ p h. ground (arith, h, any-append p held new)))
          (rw (append-nil (held ++ new)) refl)) in
    rw (ensure_lem s grants now i) (refl, again)

-- Two copies of a grant that the owner does not hold, in one batch, are both written: the method does not look among the
-- grants that it collected.
pub ensure_grants_for_owners_doubles :
    (s : System) (g : Grant) (now : ℕ)
    → IsEnsurable now g
    → any (is_held g now) s.store.grants ≡ false
    → (ensure_grants_for_owners s (g ∷ g ∷ []) now).0.store.grants ≡ s.store.grants ++ g ∷ g ∷ []
unfolding filter
ensure_grants_for_owners_doubles s g now i missing =
    rw (ensure_lem s (g ∷ g ∷ []) now (i, (i, tt))) (ground (arith, missing))
