-- ===== src/Tests/Data.antt =====
-- The inputs of the tests.
use go_permissions.Base.{String, false, [], ◌∷◌, none}
use go_permissions.Types.{
  Grant, PrincipalRef, Request, Role, effect_allow, principal_user, principal_role,
}
use go_permissions.BuiltIn
use go_permissions.Bootstrap
use go_permissions.Bootstrap.{Store}
use go_permissions.Service.State.{Service, DisabledCache}
use go_permissions.Service.Stores.{bootstrap_permission_store}

abbrev pub grant_to : String → String → String → Grant
grant_to kind id perm = record {
  id = 0;
  owner_kind = kind;
  owner_id = id;
  effect = effect_allow;
  team_scope = "*";
  object_scope = none;
  permission_name = perm;
  expires_at = none;
  restricted_fields = [];
  variable_spec = none;
}

abbrev pub role_named : String → Role
role_named id = record {
  id = id;
  name = id;
  description = "";
  scope = "";
  tags = [];
  permissions = [];
  built_in = false;
  is_disabled = false;
}

abbrev pub ann : PrincipalRef
ann = record { kind = principal_user; id = "ann" }

abbrev pub edit : Request
edit = record { user_id = "ann"; team_id = ""; object = ""; perm = "docs.edit" }

abbrev pub delete_docs : Request
delete_docs = record edit { perm = "docs.delete" }

-- an editor may delete, but ann may not; a lead is an editor
abbrev pub store : Store
store = record Bootstrap.new_store {
  roles = ("editor", role_named "editor") ∷ ("lead", role_named "lead") ∷ [];
  assignments = ("user:ann", record { role_id = "lead"; binding_values = [] } ∷ []) ∷ [];
  grants =
      grant_to principal_role "editor" "docs.edit"
      ∷ grant_to principal_role "editor" "docs.delete"
      ∷ record (grant_to principal_user "ann" "docs.delete") { effect = "deny" }
      ∷ [];
  hierarchy = record {
    inheritance = ("lead", "editor" ∷ []) ∷ [];
    closure = ("editor", "editor" ∷ []) ∷ ("lead", "lead" ∷ "editor" ∷ []) ∷ [];
  };
}

abbrev pub service : Service
service = record {
  identity = none;
  permissions = bootstrap_permission_store store 100;
  built_ins = BuiltIn.new_registry;
  public_role_id = "";
  authenticated_role_id = "";
  admin_role_id = "";
  admin_group_id = "";
}

abbrev pub cold : DisabledCache
cold = record { entries = none; at = 0 }
