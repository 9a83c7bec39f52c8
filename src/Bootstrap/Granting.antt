-- ===== src/Bootstrap/Granting.antt =====
-- The grants of bootstrapStore (bootstrap_store.go).
use go_permissions.Base.{
  ℕ, String, Bool, true, not, ◌&&◌, ◌||◌, List, [], ◌∷◌, ◌++◌, Option, none, some, if◌then◌else◌,
  ◌==◌, filter, contains_string,
}
use go_permissions.Base.Maps.{Map, get, put, delete}
use go_permissions.Base.Sets.{set_add}
use go_permissions.Base.Sort.{sort_by}
use go_permissions.Base.Results.{
  Error, Result, ok, err, ◌>>=◌, owner_id_required, permission_name_required, team_scope_required,
}
use go_permissions.GrantListing
use go_permissions.Types.{
  GrantQuery, GrantQueryResult, Grant, PrincipalRef, PrincipalHit, Request, effect_deny,
  is_expired_at, validate_principal,
}
use go_permissions.Types.Principals.{principal_key}
use go_permissions.Grants.Matching.{scope_matches}
use go_permissions.Bootstrap.State.{Store}

-- GrantsForPrincipal
unfoldable pub grants_for_principal : Store → PrincipalRef → ℕ → Result (List Grant)
unfolding filter
grants_for_principal s principal now = do
  _ ← validate_principal principal
  ok (
      filter
        (λ g.
          g.owner_kind == principal.kind && g.owner_id == principal.id && not (is_expired_at g now))
        s.grants)

-- the loop over the owners: all are validated before any grant is read
unfoldable pub owner_keys : List PrincipalRef → Result (List String)
owner_keys [] = ok []
owner_keys (o ∷ owners) = do
  _ ← validate_principal o
  rest ← owner_keys owners
  ok (principal_key o ∷ rest)

abbrev pub owner_of : Grant → PrincipalRef
owner_of g = record { kind = g.owner_kind; id = g.owner_id }

-- the object scope of a grant against a request; an absent scope is unrestricted
abbrev pub object_scope_matches : Option String → String → Bool
object_scope_matches none object = true
object_scope_matches (some scope) object = scope_matches scope object

-- the tests of the loop of GrantsForOwners
unfoldable pub selects : List String → Request → ℕ → Grant → Bool
unfolding contains_string
selects keys' req now g =
    contains_string keys' (principal_key (owner_of g))
    && not (is_expired_at g now)
    && not (not (req.perm == "") && not (g.permission_name == req.perm))
    && scope_matches g.team_scope req.team_id
    && object_scope_matches g.object_scope req.object

-- GrantsForOwners
unfoldable pub grants_for_owners : Store → List PrincipalRef → Request → ℕ → Result (List Grant)
unfolding owner_keys selects filter
grants_for_owners s owners req now = do
  keys' ← owner_keys owners
  ok (filter (selects keys' req now) s.grants)

-- the checks that CreateGrant and CreateGrants share
unfoldable pub grant_error : Grant → Option Error
grant_error g =
    if g.owner_id == ""
    then some owner_id_required
    else if g.permission_name == ""
    then some permission_name_required
    else if g.team_scope == ""
    then some team_scope_required
    else none

-- CreateGrant
unfoldable pub create_grant : Store → Grant → Store × Option Error
unfolding grant_error
create_grant s g = elim (grant_error g) [
  | some e ↦ (s, some e)
  | none ↦ (record s { grants = s.grants ++ g ∷ [] }, none)
]

-- CreateGrants: what stands before the first grant that is refused is written
unfoldable pub create_grants : Store → List Grant → Store × Option Error
unfolding grant_error
create_grants s [] = (s, none)
create_grants s (g ∷ grants) =
    let rest = create_grants (record s { grants = s.grants ++ g ∷ [] }) grants in
    elim (grant_error g) [ some e ↦ (s, some e) | none ↦ rest ]

-- DeleteGrantsForOwner
unfoldable pub delete_grants_for_owner : Store → String → String → Store
unfolding filter
delete_grants_for_owner s owner_kind owner_id = record s {
  grants = filter (λ g. not (g.owner_kind == owner_kind && g.owner_id == owner_id)) s.grants;
}

-- the two maps of PrincipalsWithGrant
pub record Hits : Type 0 where
  pub denied : List String
  pub allowed : Map PrincipalHit

unfoldable pub note_grant : Hits → Grant → Hits
note_grant h g =
    let key = principal_key (owner_of g) in
    if g.effect == effect_deny
    then record { denied = set_add h.denied key; allowed = delete h.allowed key }
    else if contains_string h.denied key
    then h
    else elim (get h.allowed key) [
      | some _ ↦ h
      | none ↦ record h {
        allowed = put h.allowed key (record {
          kind = g.owner_kind;
          id = g.owner_id;
          team_scope = g.team_scope;
          object_scope = g.object_scope;
          permission_name = g.permission_name;
        });
      }
    ]

unfoldable pub note_grants : List Grant → String → ℕ → Hits → Hits
unfolding note_grant
note_grants [] perm now h = h
note_grants (g ∷ grants) perm now h =
    note_grants grants perm now
      (if not (g.permission_name == perm) || is_expired_at g now then h else note_grant h g)

unfoldable pub hit_values : Map PrincipalHit → List PrincipalHit
hit_values [] = []
hit_values ((_, h) ∷ m) = h ∷ hit_values m

-- PrincipalsWithGrant; the order of the hits (by kind, then ID) is that of their keys
unfoldable pub principals_with_grant : Store → Request → ℕ → Result (List PrincipalHit)
unfolding note_grants hit_values
principals_with_grant s req now =
    if req.perm == ""
    then err permission_name_required
    else ok (
        sort_by (λ (h : PrincipalHit). h.kind)
          (sort_by (λ (h : PrincipalHit). h.id)
            (hit_values
              (note_grants s.grants req.perm now (record { denied = []; allowed = [] })).allowed)))

-- ListGrants
unfoldable pub list_grants : Store → GrantQuery → Result GrantQueryResult
list_grants s q = GrantListing.list_grants s.grants q
