-- ===== src/Bootstrap/Grants.antt =====
-- The grants of the store: who is a hit, what a deletion leaves, and what a bulk write leaves.
use mathlib.Core.List.{append-nil, append_assoc}
use go_permissions.Base.{
  ℕ, ◌≡◌, sym, refl, String, Bool, true, false, not, ◌&&◌, ◌||◌, List, [], ◌∷◌, ◌++◌, Option, none,
  some, arith, ◌==◌, eq_iff, any, any-filter, contains_string,
}
use go_permissions.Base.Maps.{get, get-put, get-delete}
use go_permissions.Base.Sets.{contains-set_add}
use go_permissions.Types.{Grant, is_expired_at, effect_deny}
use go_permissions.Types.Principals.{principal_key}
use go_permissions.Bootstrap.{
  Store, Hits, note_grant, note_grants, owner_of, create_grants, grant_error,
  delete_grants_for_owner,
}

-- an active grant of the permission that belongs to the principal with this key
abbrev pub concerns : String → ℕ → String → Grant → Bool
concerns perm now key g =
    g.permission_name == perm && not (is_expired_at g now) && principal_key (owner_of g) == key

abbrev pub denies : String → ℕ → String → Grant → Bool
denies perm now key g = concerns perm now key g && g.effect == effect_deny

abbrev pub is_some {ℓ} : {A : Type ℓ} → Option A → Bool
is_some none = false
is_some (some a) = true

-- the principal with this key is a hit
abbrev pub present : Hits → String → Bool
present h key = is_some (get h.allowed key)

module _ (perm : String) (now : ℕ) where
  denied-note_grant :
      (h : Hits) (g : Grant) (key : String)
      → contains_string (note_grant h g).denied key ≡ (
          contains_string h.denied key
          || (g.effect == effect_deny && principal_key (owner_of g) == key))
  unfolding note_grant
  denied-note_grant h g key =
      ground (arith, contains-set_add h.denied (principal_key (owner_of g)) key)

  denied-note_grants :
      (grants : List Grant) (h : Hits) (key : String)
      → contains_string (note_grants grants perm now h).denied key
        ≡ (contains_string h.denied key || any (denies perm now key) grants)
  unfolding note_grants any
  denied-note_grants [] h key = ground arith
  denied-note_grants (g ∷ grants) h key = ground (
    arith,
    denied-note_grants grants h key,
    denied-note_grants grants (note_grant h g) key,
    denied-note_grant h g key,
  )

present-note_grant :
    (h : Hits) (g : Grant) (key : String)
    → (contains_string h.denied key && present h key) ≡ false
    → present (note_grant h g) key ≡ (
        not (contains_string (note_grant h g).denied key)
        && (present h key || principal_key (owner_of g) == key))
unfolding note_grant
present-note_grant h g key apart = ground (
  arith,
  contains-set_add h.denied (principal_key (owner_of g)) key,
  get-delete h.allowed (principal_key (owner_of g)) key,
  get-put h.allowed (principal_key (owner_of g)) key (record {
    kind = g.owner_kind;
    id = g.owner_id;
    team_scope = g.team_scope;
    object_scope = g.object_scope;
    permission_name = g.permission_name;
  }),
  eq_iff (principal_key (owner_of g)) key,
)

module _ (perm : String) (now : ℕ) where
  present-note_grants :
      (grants : List Grant) (h : Hits) (key : String)
      → (contains_string h.denied key && present h key) ≡ false
      → present (note_grants grants perm now h) key ≡ (
          not (contains_string h.denied key || any (denies perm now key) grants)
          && (present h key || any (concerns perm now key) grants))
  unfolding note_grants any
  present-note_grants [] h key apart = ground arith
  present-note_grants (g ∷ grants) h key apart = ground (
    arith,
    present-note_grants grants h key,
    present-note_grants grants (note_grant h g) key,
    present-note_grant h g key,
    denied-note_grant perm now h g key,
  )

  -- the loops leave a hit under a key exactly when an active grant of the permission belongs to it and none of those denies
  pub present_lem :
      (grants : List Grant) (key : String)
      → present (note_grants grants perm now (record { denied = []; allowed = [] })) key
        ≡ (any (concerns perm now key) grants && not (any (denies perm now key) grants))
  unfolding get contains_string
  present_lem grants key =
      ground (arith, present-note_grants grants (record { denied = []; allowed = [] }) key refl)

-- the grant belongs to the owner
abbrev pub owned : String → String → Grant → Bool
owned kind id g = g.owner_kind == kind && g.owner_id == id

-- DeleteGrantsForOwner leaves exactly the grants of the other owners: a test finds afterwards what it found among those before.
pub delete_grants_for_owner-any :
    (s : Store) (kind id : String) (p : Grant → Bool)
    → any p (delete_grants_for_owner s kind id).grants
      ≡ any (λ g. not (owned kind id g) && p g) s.grants
unfolding delete_grants_for_owner
delete_grants_for_owner-any s kind id p = any-filter p (λ g. not (owned kind id g)) s.grants

-- the grants in front of the first that CreateGrant refuses
unfoldable pub accepted : List Grant → List Grant
accepted [] = []
accepted (g ∷ grants) =
    let rest = accepted grants in elim (grant_error g) [ some e ↦ [] | none ↦ g ∷ rest ]

-- CreateGrants writes the grants in front of the first that it refuses, in order, and keeps them when it then fails: a failed
-- bulk write is not undone.
pub create_grants-accepted :
    (s : Store) (grants : List Grant)
    → (create_grants s grants).0.grants ≡ s.grants ++ accepted grants
unfolding create_grants accepted
create_grants-accepted s [] = sym (append-nil s.grants)
create_grants-accepted s (g ∷ grants) = ground (
  arith,
  append-nil s.grants,
  create_grants-accepted (record s { grants = s.grants ++ g ∷ [] }) grants,
  append_assoc s.grants (g ∷ []) (accepted grants),
)
