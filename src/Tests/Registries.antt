-- ===== src/Tests/Registries.antt =====
-- The registries, role inheritance and the permission objects.
use go_permissions.Base.{
  ◌≡◌, refl, String, Bool, true, ◌&&◌, List, [], ◌∷◌, none, some, ◌↔◌, ◌==◌, contains_string,
  ne_of_test, eq_iff, arith,
}
use go_permissions.Base.Results.{Result, ok}
use go_permissions.Types.{Request, principal_role}
use go_permissions.Hierarchy.{Hierarchy, expand_roles, add_edge, delete_role}
use go_permissions.Hierarchy.Reach.{Edge, IsClosed}
use go_permissions.Hierarchy.Expanding.{Root, expand_roles-Root}
use go_permissions.Hierarchy.Adding.{add_edge-IsClosed}
use go_permissions.BuiltIn.{new_registry}
use go_permissions.BuiltIn.Invariant.{Call, register, inherit, grant, run, IsValid, run-IsValid}
use go_permissions.Bootstrap.Roles.{delete_role_breaks}
use go_permissions.Permissions.{PermissionMeta, text, team_filter, object_filter}
use go_permissions.Permissions.Batches.{says_yes, filters_ask}
use go_permissions.PermissionRegistry
use go_permissions.PermissionRegistry.{PermissionRegistry, PermissionDefinition, lookup}
use go_permissions.PermissionRegistry.Laws.{lookup-register}
use package.go_permissions.Tests.Program.{program}
use package.go_permissions.Tests.Data.{grant_to, role_named}

-- a lead inherits an editor, who inherits a reader; a call fails, and a grant is added twice
abbrev calls : List Call
calls =
    register (role_named "builtin.reader")
    ∷ register (role_named "builtin.editor")
    ∷ register (role_named "lead")
    ∷ inherit "builtin.lead" "builtin.editor"
    ∷ inherit "builtin.editor" "builtin.reader"
    ∷ grant (grant_to principal_role "builtin.editor" "docs.edit")
    ∷ grant (grant_to principal_role "builtin.editor" "docs.edit")
    ∷ []

run-IsValid_example : IsValid (run new_registry calls)
run-IsValid_example = run-IsValid calls

abbrev h : Hierarchy
h = (run new_registry calls).hierarchy

h-IsClosed : IsClosed h
h-IsClosed = (run-IsValid calls).closed

expansion_of_lead :
    expand_roles h (" builtin.lead" ∷ "" ∷ "builtin.reader" ∷ [])
    ≡ ("builtin.lead" ∷ "builtin.editor" ∷ "builtin.reader" ∷ [])
unfolding program
expansion_of_lead = refl

expand_roles-Root_example :
    (contains_string (expand_roles h ("builtin.lead" ∷ [])) "builtin.reader" ≡ true)
    ↔ Root h.inheritance ("builtin.lead" ∷ []) "builtin.reader"
expand_roles-Root_example = expand_roles-Root h h-IsClosed ("builtin.lead" ∷ []) "builtin.reader"

add_edge-IsClosed_example : IsClosed (add_edge h "builtin.reader" "builtin.guest")
add_edge-IsClosed_example = add_edge-IsClosed h "builtin.reader" "builtin.guest" h-IsClosed

only_editor : (b : String) → Edge h.inheritance "builtin.lead" b → b ≡ "builtin.editor"
unfolding program
only_editor b e = ground (arith, eq_iff "builtin.editor" b)

delete_role_breaks_example : ¬ IsClosed (delete_role h "builtin.editor")
unfolding program
delete_role_breaks_example =
    delete_role_breaks h h-IsClosed "builtin.editor" "builtin.lead" "builtin.reader"
      (ne_of_test "builtin.lead" "builtin.editor" refl)
      (ne_of_test "builtin.reader" "builtin.editor" refl)
      (ne_of_test "builtin.lead" "builtin.reader" refl) only_editor refl refl

-- ann may edit in the team "ops"
checks : Request → Result Bool
checks req = ok (req.user_id == "ann" && req.team_id == "ops")

abbrev meta : PermissionMeta
meta = record {
  id = "docs.edit";
  namespace = "docs";
  name = "Edit";
  description = "";
  fields = [];
  checker = some (record { has_permission = checks; get_subject_id = none });
}

filters_ask_example :
    (contains_string (team_filter meta (text "ann") ("dev" ∷ "ops" ∷ [])) "ops" ≡ (
      true
      && says_yes meta
          (text "ann")
          (λ u. record { user_id = u; team_id = "ops"; object = ""; perm = meta.id })))
    × (contains_string (object_filter meta (text "ann") (some "ops") ("dev" ∷ "ops" ∷ [])) "ops" ≡ (
        true
        && (true
            && says_yes meta
                (text "ann")
                (λ u. record { user_id = u; team_id = "ops"; object = "ops"; perm = meta.id }))))
unfolding program
filters_ask_example = filters_ask meta (text "ann") ("dev" ∷ "ops" ∷ []) (some "ops") "ops"

abbrev docs_edit : PermissionDefinition
docs_edit = record {
  id = "docs.edit";
  scope = "system";
  namespace = "docs";
  name = "Edit";
  description = "";
  fields = [];
}

lookup-register_example :
    lookup (PermissionRegistry.register PermissionRegistry.new_registry docs_edit).0 "docs.edit"
    ≡ some docs_edit
unfolding program
lookup-register_example = lookup-register PermissionRegistry.new_registry docs_edit "docs.edit"
