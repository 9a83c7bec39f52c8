-- ===== src/Service/Fields/Permitted.antt =====
-- A field that FilterPermittedFields returns is one that the votes permit.
use go_permissions.Base.{
  ℕ, ◌≡◌, ◌⊎◌, ◌∙◌, refl, String, Bool, true, false, List, [], ◌∷◌, some, arith, inl, inr,
  contains_string, Bool-cases, text_cases, Option,
}
use go_permissions.Base.Results.{ok, Result-cases}
use go_permissions.Types.{Request, RoleAssignment}
use go_permissions.Grants.Fields.{is_indexed_field_path}
use go_permissions.Service.State.{Service, DisabledCache}
use go_permissions.Service.Expansion.{Progress, expand_roles_cached, fetch_role_grants}
use go_permissions.Service.Evaluation.{
  Vote, Scan, denied, going, gather, scan_direct, scan_roles, scan_assignments, binding_map,
  decide_case, evaluate_permission,
}
use go_permissions.Service.Ballot.{ballot, carried, disabled_now}
use go_permissions.Service.Caching.{IsCoherent, IsCoherent-start, expand_roles_cached-expansion}
use go_permissions.Service.Decision.{Scan-cases, evaluate-granted}
use go_permissions.Service.Fields.{has_field_permission, filter_fields, filter_permitted_fields}

module _ (s : Service) (now : ℕ) (req : Request) where
  -- the loop shows the disabled roles as before
  scan_assignments-disabled_now :
      (disabled : List String) (field : Option String) (assignments : List RoleAssignment)
      (allowed : Bool) (p : Progress)
      → IsCoherent s now disabled p
      → disabled_now s now (scan_assignments s now req field assignments allowed p).1.cache
        ≡ disabled
  unfolding scan_assignments
  scan_assignments-disabled_now disabled field [] allowed p co = co.view
  scan_assignments-disabled_now disabled field (a ∷ assignments) allowed p co =
      let (_, co') = expand_roles_cached-expansion s now disabled a.role_id p co in
      let p' = (expand_roles_cached s now a.role_id p).1 in
      let seen : disabled_now s now p'.cache ≡ disabled = co'.view in
      elim (Result-cases (expand_roles_cached s now a.role_id p).0) [
        | inr (e, bad) ↦ ground arith
        | inl (role_ids, good) ↦ elim (Result-cases (fetch_role_grants s now role_ids req)) [
          | inr (e, bad) ↦ ground arith
          | inl (grants, found) ↦
              elim (Scan-cases (scan_roles now req field role_ids (binding_map a) grants allowed)) [
                | inl (b, went) ↦
                    let later = scan_assignments-disabled_now disabled field assignments b p' co' in
                    ground arith
                | inr stopped ↦ ground arith
              ]
        ]
      ]

  evaluate_permission-disabled_now :
      (field : Option String) (c : DisabledCache)
      → disabled_now s now (evaluate_permission s now req field c).1 ≡ disabled_now s now c
  unfolding evaluate_permission decide_case
  evaluate_permission-disabled_now field c = elim (Result-cases (gather s req)) [
    | inr (e, bad) ↦ ground arith
    | inl (case, got) ↦
        let start = IsCoherent-start s now (disabled_now s now c) c refl in
        let seen = λ (allowed : Bool).
          scan_assignments-disabled_now (disabled_now s now c) field case.assignments allowed
            (record { cache = c; expanded = [] }) start in
        let after_true = seen true in
        let after_false = seen false in
        elim (direct_cases (scan_direct now req field case.direct false)) [
          | inl e ↦ ground arith
          | inr (inl e) ↦ ground arith
          | inr (inr e) ↦ ground arith
        ]
  ]
    where
      direct_cases : (x : Scan) → (x ≡ denied) ⊎ ((x ≡ going true) ⊎ (x ≡ going false))
      direct_cases denied = inl refl
      direct_cases (going true) = inr (inl refl)
      direct_cases (going false) = inr (inr refl)

  has_field_permission-disabled_now :
      (path : String) (c : DisabledCache)
      → disabled_now s now (has_field_permission s now req path c).1 ≡ disabled_now s now c
  unfolding has_field_permission
  has_field_permission-disabled_now path c =
      ground (arith, evaluate_permission-disabled_now (some path) c)

  -- the path was asked for, is not indexed, and the votes on it are carried
  abbrev pub Permitted : List String → List String → String → Type 0
  Permitted disabled paths path =
      (contains_string paths path ≡ true)
      × (is_indexed_field_path path ≡ false)
      × ((votes : List Vote) × (ballot s now disabled req (some path) ≡ ok votes)
          × (carried votes ≡ true))

  has_field_permission-ballot :
      (path : String) (c : DisabledCache)
      → (has_field_permission s now req path c).0 ≡ ok true
      → (is_indexed_field_path path ≡ false)
        × ((votes : List Vote) × (ballot s now (disabled_now s now c) req (some path) ≡ ok votes)
            × (carried votes ≡ true))
  unfolding has_field_permission
  has_field_permission-ballot path c h =
      (ground arith, evaluate-granted s now req (some path) c (ground arith))

  filter_fields-Permitted :
      (disabled paths seen found : List String) (c : DisabledCache) (path : String)
      → disabled_now s now c ≡ disabled
      → (filter_fields s now req paths seen c).0 ≡ ok found
      → contains_string found path ≡ true
      → Permitted disabled paths path
  unfolding filter_fields contains_string
  filter_fields-Permitted disabled [] seen found c path view h among = absurd (ground arith)
  filter_fields-Permitted disabled (x ∷ paths) seen found c path view h among =
      let c' = (has_field_permission s now req x c).1 in
      let view' = has_field_permission-disabled_now x c ∙ view in
      elim (Bool-cases (contains_string seen x)) [
        | inl old ↦
            let (asked, kept, cast) =
              filter_fields-Permitted disabled paths seen found c path view (ground arith) among in
            (ground arith, kept, cast)
        | inr new ↦ elim (Result-cases (has_field_permission s now req x c).0) [
          | inr (e, bad) ↦ absurd (ground arith)
          | inl (b, answered) ↦
              elim (Result-cases (filter_fields s now req paths (x ∷ seen) c').0) [
                | inr (e, bad) ↦ absurd (ground arith)
                | inl (later, r) ↦ elim (Bool-cases (contains_string later path)) [
                  | inl deep ↦
                      let (asked, kept, cast) =
                        filter_fields-Permitted disabled paths (x ∷ seen) later c' path view' r
                          deep in
                      (ground arith, kept, cast)
                  | inr shallow ↦ elim (text_cases x path) [
                    | inr other ↦ absurd (ground arith)
                    | inl same ↦
                        let (plain, voted) = has_field_permission-ballot x c (ground arith) in
                        rw (← same) (ground arith, plain, rw (← view) voted)
                  ]
                ]
              ]
        ]
      ]

  -- Every path that FilterPermittedFields returns was asked for, is not indexed, and is one for which some vote permits and
  -- none vetoes.
  pub filter_permitted_fields-Permitted :
      (paths found : List String) (c : DisabledCache) (path : String)
      → (filter_permitted_fields s now req paths c).0 ≡ ok found
      → contains_string found path ≡ true
      → Permitted (disabled_now s now c) paths path
  unfolding filter_permitted_fields
  filter_permitted_fields-Permitted paths found c path h among =
      filter_fields-Permitted (disabled_now s now c) paths [] found c path refl h among
