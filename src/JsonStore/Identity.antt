-- ===== src/JsonStore/Identity.antt =====
-- The identity provider that keeps a JSON file (jsonstore/identity_provider.go). Its queries have the code of
-- inmemory/identity_provider.go.
use go_permissions.Base.{String, Bool, List, Option, none, some, if◌then◌else◌, ◌==◌}
use go_permissions.Base.Maps.{put}
use go_permissions.Base.Results.{Error, Result, ok, err, message}
use go_permissions.InMemory.Identity
use go_permissions.InMemory.Identity.{Directory, new_directory}
use go_permissions.JsonStore.{Json}
use go_permissions.JsonStore.Files.{FileSystem, load_file, save_file}

-- `contents` is the field `data`
pub record IdentityProvider (F : Type 0) : Type 0 where
  pub path : String
  pub contents : Directory
  pub files : F

-- cloneIdentityData, which does not copy TeamMembership
unfoldable pub clone_identity_data : Directory → Directory
clone_identity_data d = record new_directory { user_groups = d.user_groups }

module _ {F : Type 0} (fs : FileSystem F) (json : Json Directory) where
  -- Load
  unfoldable pub load : IdentityProvider F → IdentityProvider F × Option Error
  unfolding load_file
  load p =
      elim (load_file fs p.files p.path json.unmarshal new_directory "read identity file"
        "decode identity file") [ err e ↦ (p, some e) | ok d ↦ (record p { contents = d }, none) ]

  -- NewIdentityProvider
  unfoldable pub new_identity_provider : F → String → Result (IdentityProvider F)
  unfolding load
  new_identity_provider files path =
      let o = load (record { path = path; contents = new_directory; files = files }) in
      if path == ""
      then err (message "path is required")
      else elim o.1 [ some e ↦ err e | none ↦ ok o.0 ]

  -- Save
  unfoldable pub save : IdentityProvider F → IdentityProvider F × Option Error
  unfolding save_file clone_identity_data
  save p =
      let o =
        save_file fs p.files p.path (json.marshal (clone_identity_data p.contents))
          "create identity directory" "encode identity data" "write temp identity file"
          "replace identity file" in
      (record p { files = o.0 }, o.1)

  -- SetUserGroups
  unfoldable pub set_user_groups :
      IdentityProvider F → String → List String → IdentityProvider F × Option Error
  unfolding save
  set_user_groups p user_id group_ids = save (record p {
    contents = record p.contents { user_groups = put p.contents.user_groups user_id group_ids };
  })

-- GetUserGroups, GetGroupMembers, IsUserInGroup, GetUserTeams and IsUserInTeam
module _ {F : Type 0} (p : IdentityProvider F) where
  unfoldable pub get_user_groups : String → List String
  get_user_groups user_id = Identity.get_user_groups p.contents user_id

  unfoldable pub get_group_members : String → List String
  get_group_members group_id = Identity.get_group_members p.contents group_id

  unfoldable pub is_user_in_group : String → String → Bool
  is_user_in_group user_id group_id = Identity.is_user_in_group p.contents user_id group_id

  unfoldable pub get_user_teams : String → List String
  get_user_teams user_id = Identity.get_user_teams p.contents user_id

  unfoldable pub is_user_in_team : String → String → Bool
  is_user_in_team user_id team_id = Identity.is_user_in_team p.contents user_id team_id
