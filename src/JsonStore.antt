-- ===== src/JsonStore.antt =====
-- The store that keeps a JSON file (jsonstore/store.go). The file system, `encoding/json` and `filepath.Dir`
-- are parameters; the state holds the files beside the d. A nil map and an empty one are both `[]`, but
-- for the variables of a grant, so normalizeData is the identity.
pub mod Files
pub mod Queries
pub mod Expanding
pub mod Saving
pub mod Identity
use go_permissions.Base.{
  String, Bool, true, false, not, ◌&&◌, List, [], ◌∷◌, ◌++◌, Option, none, some, if◌then◌else◌,
  ◌==◌, filter, map, contains_string, is_empty,
}
use go_permissions.Base.Maps.{Map, put, delete}
use go_permissions.Base.Sets.{get_set}
use go_permissions.Base.Results.{
  Error, Result, ok, err, role_id_required, parent_role_id_required, child_role_id_required,
  self_inheritance, message,
}
use go_permissions.Types.{
  Grant, RoleAssignment, PrincipalRef, Value, principal_user, principal_group, principal_team,
  validate_principal,
}
use go_permissions.Bootstrap.{assigned, is_assignment}
use go_permissions.InMemory.Identity.{Entry}
use package.go_permissions.JsonStore.Files.{
  FileSystem, Content, missing, unread, content, save_file, load_file,
}

pub record Data : Type 0 where
  pub user_groups : Map (List String)
  pub team_membership : Map (List Entry)
  pub user_role_assignments : Map (List RoleAssignment)
  pub group_role_assignments : Map (List RoleAssignment)
  pub team_role_assignments : Map (List RoleAssignment)
  pub role_inheritance : Map (List String)
  pub role_expansion : Map (List String)
  pub grants : List Grant

-- emptyData
abbrev pub empty_data : Data
empty_data = record {
  user_groups = [];
  team_membership = [];
  user_role_assignments = [];
  group_role_assignments = [];
  team_role_assignments = [];
  role_inheritance = [];
  role_expansion = [];
  grants = [];
}

-- cloneGrant: the copy has a map of variables, if an empty one
unfoldable pub clone_grant : Grant → Grant
clone_grant g = record g { variable_spec = some (elim g.variable_spec [ none ↦ [] | some m ↦ m ]) }

-- cloneData, which does not copy TeamMembership
unfoldable pub clone_data : Data → Data
unfolding clone_grant
clone_data d = record empty_data {
  user_groups = d.user_groups;
  user_role_assignments = d.user_role_assignments;
  group_role_assignments = d.group_role_assignments;
  team_role_assignments = d.team_role_assignments;
  role_inheritance = d.role_inheritance;
  role_expansion = d.role_expansion;
  grants = map clone_grant d.grants;
}

-- `contents` is the field `data`
pub record Store (F : Type 0) : Type 0 where
  pub path : String
  pub contents : Data
  pub files : F

-- what `json.MarshalIndent` and `json.Unmarshal` do
pub record Json (D : Type 0) : Type 0 where
  pub marshal : D → Result String
  pub unmarshal : String → Result D

module _ {F : Type 0} (fs : FileSystem F) (json : Json Data) where
  -- Load
  unfoldable pub load : Store F → Store F × Option Error
  unfolding load_file
  load s =
      elim (load_file fs s.files s.path json.unmarshal empty_data "read store file"
        "decode store file") [ err e ↦ (s, some e) | ok d ↦ (record s { contents = d }, none) ]

  -- NewStore
  unfoldable pub new_store : F → String → Result (Store F)
  unfolding load
  new_store files path =
      let o = load (record { path = path; contents = empty_data; files = files }) in
      if path == ""
      then err (message "path is required")
      else elim o.1 [ some e ↦ err e | none ↦ ok o.0 ]

  -- Save
  unfoldable pub save : Store F → Store F × Option Error
  unfolding save_file clone_data
  save s =
      let o =
        save_file fs s.files s.path (json.marshal (clone_data s.contents)) "create store directory"
          "encode store data" "write temp store file" "replace store file" in
      (record s { files = o.0 }, o.1)

  -- Snapshot
  unfoldable pub snapshot : Store F → Data
  unfolding clone_data
  snapshot s = clone_data s.contents

  -- SetData
  unfoldable pub set_data : Store F → Data → Store F × Option Error
  unfolding save
  set_data s d = save (record s { contents = d })

  -- CreateGrant
  unfoldable pub create_grant : Store F → Grant → Store F × Option Error
  unfolding save clone_grant
  create_grant s g = save (record s {
    contents = record s.contents { grants = s.contents.grants ++ clone_grant g ∷ [] };
  })

  -- the `switch` on the kind of principal with the write to the map that it chooses, and the Save
  unfoldable pub on_kind :
      Store F
      → String
      → (Map (List RoleAssignment) → Map (List RoleAssignment))
      → Store F × Option Error
  unfolding save
  on_kind s kind change =
      let d = s.contents in
      if kind == principal_user
      then save (record s {
        contents = record d { user_role_assignments = change d.user_role_assignments };
      })
      else if kind == principal_group
      then save (record s {
        contents = record d { group_role_assignments = change d.group_role_assignments };
      })
      else if kind == principal_team
      then save (record s {
        contents = record d { team_role_assignments = change d.team_role_assignments };
      })
      else (s, some (message "role assignments support only user, group, or team principals"))

  -- AssignRole
  unfoldable pub assign_role : Store F → PrincipalRef → String → Map Value → Store F × Option Error
  unfolding on_kind
  assign_role s principal role_id values = elim (validate_principal principal) [
    | err e ↦ (s, some e)
    | ok _ ↦
        if role_id == ""
        then (s, some role_id_required)
        else on_kind s principal.kind (λ m.
          put m principal.id
            (assigned m principal.id ++ record { role_id = role_id; binding_values = values } ∷ []))
  ]

  -- UnassignRole
  unfoldable pub unassign_role :
      Store F → PrincipalRef → String → Map Value → Store F × Option Error
  unfolding on_kind filter
  unassign_role s principal role_id values = elim (validate_principal principal) [
    | err e ↦ (s, some e)
    | ok _ ↦
        if role_id == ""
        then (s, some role_id_required)
        else on_kind s principal.kind (λ m.
          let filtered =
            filter (λ a. not (is_assignment role_id values a)) (assigned m principal.id) in
          if is_empty filtered then delete m principal.id else put m principal.id filtered)
  ]

  -- AddRoleInheritance
  unfoldable pub add_role_inheritance : Store F → String → String → Store F × Option Error
  unfolding save contains_string
  add_role_inheritance s parent child =
      let children = get_set s.contents.role_inheritance parent in
      if parent == ""
      then (s, some parent_role_id_required)
      else if child == ""
      then (s, some child_role_id_required)
      else if parent == child
      then (s, some self_inheritance)
      else if contains_string children child
      then (s, none)
      else save (record s {
        contents = record s.contents {
          role_inheritance = put s.contents.role_inheritance parent (children ++ child ∷ []);
        };
      })

  -- DeleteGrantsForOwner
  unfoldable pub delete_grants_for_owner : Store F → String → String → Store F × Option Error
  unfolding save filter
  delete_grants_for_owner s kind id = save (record s {
    contents = record s.contents {
      grants =
          filter (λ (g : Grant). not (g.owner_kind == kind && g.owner_id == id)) s.contents.grants;
    };
  })
