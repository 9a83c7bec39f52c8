-- ===== src/Service/Fields.antt =====
-- HasFieldPermission and FilterPermittedFields (service.go).
pub mod Permitted
use go_permissions.Base.{
  ℕ, String, Bool, true, false, List, [], ◌∷◌, some, if◌then◌else◌, ◌==◌, contains_string,
}
use go_permissions.Base.Text.{trim_space}
use go_permissions.Base.Results.{Result, ok, err, indexed_field_path, field_path_required}
use go_permissions.Types.{Request}
use go_permissions.Grants.Fields.{is_indexed_field_path}
use go_permissions.Service.State.{Service, DisabledCache}
use go_permissions.Service.Evaluation.{evaluate_permission}

-- HasFieldPermission
unfoldable pub has_field_permission :
    Service → ℕ → Request → String → DisabledCache → Result Bool × DisabledCache
has_field_permission s now req path c =
    if is_indexed_field_path path
    then (err (indexed_field_path path), c)
    else if trim_space path == ""
    then (err field_path_required, c)
    else evaluate_permission s now req (some path) c

-- the loop of FilterPermittedFields, in front of what it has found already
unfoldable pub filter_fields :
    Service
    → ℕ
    → Request
    → List String
    → List String
    → DisabledCache
    → Result (List String) × DisabledCache
unfolding has_field_permission
filter_fields s now req [] seen c = (ok [], c)
filter_fields s now req (path ∷ paths) seen c =
    let skipped = filter_fields s now req paths seen c in
    let (allowed, c') = has_field_permission s now req path c in
    let (rest, c'') = filter_fields s now req paths (path ∷ seen) c' in
    if contains_string seen path then skipped else elim allowed [
      | err e ↦ (err e, c')
      | ok b ↦ elim rest [
        | err e ↦ (err e, c'')
        | ok found ↦ (ok (if b then path ∷ found else found), c'')
      ]
    ]

-- FilterPermittedFields
unfoldable pub filter_permitted_fields :
    Service → ℕ → Request → List String → DisabledCache → Result (List String) × DisabledCache
unfolding filter_fields
filter_permitted_fields s now req paths c = filter_fields s now req paths [] c
