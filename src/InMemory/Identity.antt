-- ===== src/InMemory/Identity.antt =====
-- The in-memory identity provider (inmemory/identity_provider.go). `TeamMembership` is a public field,
-- so a test sets it as it likes.
use go_permissions.Base.{
  String, Bool, true, false, ◌&&◌, ◌||◌, List, [], ◌∷◌, ◌++◌, if◌then◌else◌, ◌==◌, contains_string,
  is_empty,
}
use go_permissions.Base.Maps.{Map, put}
use go_permissions.Base.Sets.{get_set}
use go_permissions.Base.Results.{ok}
use go_permissions.Service.State.{IdentityProvider}

abbrev pub user_member_kind : String
user_member_kind = "user"

abbrev pub group_member_kind : String
group_member_kind = "group"

pub record Entry : Type 0 where
  pub id : String
  pub kind : String

pub record Directory : Type 0 where
  pub user_groups : Map (List String)
  pub team_membership : Map (List Entry)

-- NewIdentityProvider
abbrev pub new_directory : Directory
new_directory = record { user_groups = []; team_membership = [] }

-- AddUserGroups
unfoldable pub add_user_groups : Directory → String → List String → Directory
add_user_groups d user_id group_ids = if user_id == "" || is_empty group_ids then d else record d {
  user_groups = put d.user_groups user_id (get_set d.user_groups user_id ++ group_ids);
}

-- GetUserGroups
unfoldable pub get_user_groups : Directory → String → List String
get_user_groups d user_id = get_set d.user_groups user_id

-- the loop of GetGroupMembers
members_in : Map (List String) → String → List String
unfolding contains_string
members_in [] group_id = []
members_in ((user_id, groups) ∷ m) group_id =
    let rest = members_in m group_id in
    if contains_string groups group_id then user_id ∷ rest else rest

-- GetGroupMembers
unfoldable pub get_group_members : Directory → String → List String
unfolding members_in
get_group_members d group_id = members_in d.user_groups group_id

-- IsUserInGroup
unfoldable pub is_user_in_group : Directory → String → String → Bool
unfolding contains_string
is_user_in_group d user_id group_id = contains_string (get_set d.user_groups user_id) group_id

-- the test of an entry in GetUserTeams
unfoldable pub is_member : Directory → String → Entry → Bool
unfolding is_user_in_group
is_member d user_id e =
    if e.id == user_id && e.kind == user_member_kind
    then true
    else if e.kind == group_member_kind
    then is_user_in_group d user_id e.id
    else false

-- the inner loop: a team is listed for each entry that makes the user a member
unfoldable pub team_of_entries : Directory → String → String → List Entry → List String
unfolding is_member
team_of_entries d user_id team_id [] = []
team_of_entries d user_id team_id (e ∷ entries) =
    let rest = team_of_entries d user_id team_id entries in
    if is_member d user_id e then team_id ∷ rest else rest

unfoldable pub teams_in : Directory → String → Map (List Entry) → List String
unfolding team_of_entries
teams_in d user_id [] = []
teams_in d user_id ((team_id, entries) ∷ m) =
    team_of_entries d user_id team_id entries ++ teams_in d user_id m

-- GetUserTeams
unfoldable pub get_user_teams : Directory → String → List String
unfolding teams_in
get_user_teams d user_id = teams_in d user_id d.team_membership

-- IsUserInTeam
unfoldable pub is_user_in_team : Directory → String → String → Bool
unfolding get_user_teams contains_string
is_user_in_team d user_id team_id = contains_string (get_user_teams d user_id) team_id

-- `var _ permissions.IdentityProvider = (*IdentityProvider)(nil)`
abbrev pub directory_identity : Directory → IdentityProvider
directory_identity d = record {
  get_user_groups = λ user_id. ok (get_user_groups d user_id);
  get_user_teams = λ user_id. ok (get_user_teams d user_id);
}
