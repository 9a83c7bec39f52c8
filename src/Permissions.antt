-- ===== src/Permissions.antt =====
-- The permission objects of utilities.go: `SystemPermission`, `TeamPermission` and `ObjectPermission`
-- ask a checker and answer no on every error.
pub mod Batches
use go_permissions.Base.{
  String, Bool, true, false, not, ◌&&◌, ◌||◌, List, [], ◌∷◌, Option, none, some, if◌then◌else◌,
  ◌==◌, is_empty,
}
use go_permissions.Base.Text.{join}
use go_permissions.Base.Results.{Error, Result, ok, err, ◌>>=◌, message, principal_id_required}
use go_permissions.Types.{Request}

-- A Go value given as a subject, by the case of DefaultSubjectID that it falls in; a method's answer stands for
-- the method.
pub data Subject : Type 0 where
  text string_subject subject subject_id : String → Subject
  other : Subject

-- A Checker, and its GetSubjectID where it has one.
pub record Checker : Type 0 where
  pub has_permission : Request → Result Bool
  pub get_subject_id : Option (Subject → Result String)

-- permissionMeta
pub record PermissionMeta : Type 0 where
  pub id : String
  pub namespace : String
  pub name : String
  pub description : String
  pub fields : List String
  pub checker : Option Checker

required_id : String → Result String
required_id id = if id == "" then err (message "subject ID is required") else ok id

-- DefaultSubjectID
unfoldable pub default_subject_id : Subject → Result String
unfolding required_id
default_subject_id (text id) = required_id id
default_subject_id (string_subject id) = required_id id
default_subject_id (subject id) = required_id id
default_subject_id (subject_id id) = required_id id
default_subject_id other = err (message "unsupported subject type")

-- extractSubjectID
unfoldable pub extract_subject_id : Option Checker → Subject → Result String
unfolding default_subject_id
extract_subject_id none s = default_subject_id s
extract_subject_id (some c) s = elim c.get_subject_id [ none ↦ default_subject_id s | some f ↦ f s ]

-- the end of every CanUserID: no checker and an error both mean no
unfoldable pub ask : PermissionMeta → Request → Bool
ask p req = elim p.checker [
  | none ↦ false
  | some c ↦ elim (c.has_permission req) [ err e ↦ false | ok b ↦ b ]
]

abbrev pub optional : Option String → String
optional none = ""
optional (some t) = t

-- SystemPermission.CanUserID
unfoldable pub can_system : PermissionMeta → String → Bool
unfolding ask
can_system p user_id = ask p (record { user_id = user_id; team_id = ""; object = ""; perm = p.id })

-- TeamPermission.CanUserID
unfoldable pub can_team : PermissionMeta → String → String → Bool
unfolding ask
can_team p user_id team_id =
    ask p (record { user_id = user_id; team_id = team_id; object = ""; perm = p.id })

-- ObjectPermission.CanUserID
unfoldable pub can_object : PermissionMeta → String → String → Option String → Bool
unfolding ask
can_object p user_id object_id team_id =
    if object_id == ""
    then false
    else ask p
        (record { user_id = user_id; team_id = optional team_id; object = object_id; perm = p.id })

-- the loop of buildHierarchyObject
hierarchy_parts : List String → Result (List String)
hierarchy_parts [] = ok []
hierarchy_parts (parent ∷ rest) =
    let tail = hierarchy_parts rest in
    if parent == ""
    then err (message "parent path entries must be non-empty")
    else elim tail [ err e ↦ err e | ok parts ↦ ok (parent ∷ parts) ]

-- buildHierarchyObject
unfoldable pub build_hierarchy_object : String → List String → Result String
unfolding hierarchy_parts
build_hierarchy_object leaf_id parent_path =
    if leaf_id == ""
    then err (message "leaf ID is required")
    else elim (hierarchy_parts parent_path) [
      | err e ↦ err e
      | ok parts ↦ ok (join (leaf_id ∷ parts) "/")
    ]

-- ObjectPermission.CanHierarchicalUserID
unfoldable pub can_hierarchical :
    PermissionMeta → String → Option String → String → List String → Bool
unfolding build_hierarchy_object can_object
can_hierarchical p user_id team_id leaf_id parent_path =
    elim (build_hierarchy_object leaf_id parent_path) [
      | err e ↦ false
      | ok object_id ↦ can_object p user_id object_id team_id
    ]

-- The three `Can` methods: the subject first, then the user.
unfoldable pub with_subject : PermissionMeta → Subject → (String → Bool) → Bool
unfolding extract_subject_id
with_subject p s can = elim (extract_subject_id p.checker s) [
  | err e ↦ false
  | ok user_id ↦ can user_id
]

-- the loops of Any, All and Filter
unfoldable pub loop_any : (String → Bool) → List String → Bool
loop_any can [] = false
loop_any can (id ∷ ids) = let rest = loop_any can ids in if can id then true else rest

unfoldable pub loop_all : (String → Bool) → List String → Bool
loop_all can [] = true
loop_all can (id ∷ ids) = let rest = loop_all can ids in if not (can id) then false else rest

unfoldable pub loop_filter : (String → Bool) → List String → List String
loop_filter can [] = []
loop_filter can (id ∷ ids) = let rest = loop_filter can ids in if can id then id ∷ rest else rest

-- Any: `can user_id id` is the permission's CanUserID
unfoldable pub any_of : PermissionMeta → (String → String → Bool) → Subject → List String → Bool
unfolding loop_any with_subject
any_of p can s ids = if is_empty ids then false else with_subject p s (λ u. loop_any (can u) ids)

-- All
unfoldable pub all_of : PermissionMeta → (String → String → Bool) → Subject → List String → Bool
unfolding loop_all with_subject
all_of p can s ids = if is_empty ids then true else with_subject p s (λ u. loop_all (can u) ids)

-- Filter
unfoldable pub filter_of :
    PermissionMeta → (String → String → Bool) → Subject → List String → List String
unfolding loop_filter extract_subject_id
filter_of p can s ids =
    if is_empty ids
    then []
    else elim (extract_subject_id p.checker s) [ err e ↦ [] | ok u ↦ loop_filter (can u) ids ]

-- TeamPermission.Any, .All and .Filter
unfoldable pub team_any : PermissionMeta → Subject → List String → Bool
unfolding any_of can_team
team_any p = any_of p (can_team p)

unfoldable pub team_all : PermissionMeta → Subject → List String → Bool
unfolding all_of can_team
team_all p = all_of p (can_team p)

unfoldable pub team_filter : PermissionMeta → Subject → List String → List String
unfolding filter_of can_team
team_filter p = filter_of p (can_team p)

-- ObjectPermission.Any, .All, .Filter and .HierarchicalFilter
unfoldable pub object_any : PermissionMeta → Subject → Option String → List String → Bool
unfolding any_of can_object
object_any p s team_id = any_of p (λ u id. can_object p u id team_id) s

unfoldable pub object_all : PermissionMeta → Subject → Option String → List String → Bool
unfolding all_of can_object
object_all p s team_id = all_of p (λ u id. can_object p u id team_id) s

unfoldable pub object_filter : PermissionMeta → Subject → Option String → List String → List String
unfolding filter_of can_object
object_filter p s team_id = filter_of p (λ u id. can_object p u id team_id) s

unfoldable pub hierarchical_filter :
    PermissionMeta → Subject → Option String → List String → List String → List String
unfolding filter_of can_hierarchical
hierarchical_filter p s team_id leaf_ids shared_parent_path =
    filter_of p (λ u leaf. can_hierarchical p u team_id leaf shared_parent_path) s leaf_ids
