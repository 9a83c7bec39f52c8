-- ===== src/Tests/Evaluation.antt =====
-- The evaluation of a request.
use go_permissions.Base.{◌≡◌, ◌≢◌, refl, true, false, List, [], ◌∷◌, none, some, ◌↔◌}
use go_permissions.Base.Results.{ok, err, missing_role_binding}
use go_permissions.Types.{Grant, Request, RoleAssignment, str, principal_role, principal_user}
use go_permissions.Grants.Matching.{grant_matches_request, Covers, grant_matches_request-Covers}
use go_permissions.Grants.Equivalence.{SamePolicy, grants_equivalent-SamePolicy}
use go_permissions.Service.Expansion.{expand_roles_cached, Progress}
use go_permissions.Service.Evaluation.{
  Vote, permit, veto, binding_map, evaluate_permission, has_permission,
}
use go_permissions.Service.Ballot.{ballot, carried, disabled_now, expansion, role_ballot}
use go_permissions.Service.Caching.{IsCoherent, IsCoherent-start, expand_roles_cached-expansion}
use go_permissions.Service.Decision.{evaluate-carried, evaluate-granted}
use go_permissions.Service.Fields.{filter_permitted_fields}
use go_permissions.Service.Fields.Permitted.{Permitted, filter_permitted_fields-Permitted}
use go_permissions.Service.Templates.{inherited_template_denies}
use go_permissions.Service.State.{Service}
use go_permissions.Service.Stores.{bootstrap_permission_store}
use package.go_permissions.Tests.Program.{program}
use package.go_permissions.Tests.Data.{grant_to, edit, delete_docs, service, store, cold}

-- the inherited role lets ann edit; her own deny outweighs it for deleting
runs :
    ((has_permission service 100 edit cold).0 ≡ ok true)
    × ((has_permission service 100 delete_docs cold).0 ≡ ok false)
unfolding program
runs = (refl, refl)

evaluate-carried_example : (evaluate_permission service 100 delete_docs none cold).0 ≡ ok false
unfolding program
evaluate-carried_example =
    evaluate-carried service 100 delete_docs none cold (veto ∷ permit ∷ []) refl

evaluate-granted_example :
    (votes : List Vote) × (ballot service 100 (disabled_now service 100 cold) edit none ≡ ok votes)
    × (carried votes ≡ true)
unfolding program
evaluate-granted_example = evaluate-granted service 100 edit none cold refl

abbrev fresh : Progress
fresh = record { cache = cold; expanded = [] }

expand_roles_cached-expansion_example :
    ((expand_roles_cached service 100 "lead" fresh).0 ≡ expansion service [] "lead")
    × IsCoherent service 100 [] (expand_roles_cached service 100 "lead" fresh).1
unfolding program
expand_roles_cached-expansion_example =
    expand_roles_cached-expansion service 100 [] "lead" fresh
      (IsCoherent-start service 100 [] cold refl)

-- a grant that speaks of the object bound to `doc`
abbrev template : Grant
template = record (grant_to principal_role "editor" "docs.edit") {
  object_scope = some "?doc";
  variable_spec = some (("doc", str "required") ∷ []);
}

abbrev bound_lead : RoleAssignment
bound_lead = record { role_id = "lead"; binding_values = ("doc", str "d1") ∷ [] }

-- ann holds the lead, and a grant of her own
abbrev leading : Service
leading = record service {
  permissions =
      bootstrap_permission_store
        (record store {
          assignments = ("user:ann", bound_lead ∷ []) ∷ [];
          grants = grant_to principal_user "ann" "docs.edit" ∷ template ∷ [];
        })
        100;
}

abbrev edit_d1 : Request
edit_d1 = record edit { object = "d1" }

inherited_template_denies_example : (evaluate_permission leading 100 edit_d1 none cold).0 ≢ ok true
unfolding program
inherited_template_denies_example =
    inherited_template_denies leading 100 edit_d1 none cold
      (record {
        assignments = bound_lead ∷ [];
        direct = grant_to principal_user "ann" "docs.edit" ∷ [];
      })
      [] [] bound_lead ("lead" ∷ "editor" ∷ []) (template ∷ []) refl refl refl refl refl

leading_fails :
    (evaluate_permission leading 100 edit_d1 none cold).0 ≡ err (missing_role_binding "editor")
unfolding program
leading_fails = refl

-- the editor itself resolves the grant, the lead that inherits it does not
templates :
    (role_ballot 100
        (record edit { object = "d1" })
        none
        ("editor" ∷ [])
        (binding_map (record bound_lead { role_id = "editor" }))
        (template ∷ [])
      ≡ ok (permit ∷ []))
    × (role_ballot 100
          (record edit { object = "d1" })
          none
          ("lead" ∷ "editor" ∷ [])
          (binding_map bound_lead)
          (template ∷ [])
        ≡ err (missing_role_binding "editor"))
unfolding program
templates = (refl, refl)

abbrev ops_grant : Grant
ops_grant = record (grant_to principal_role "editor" "docs.edit") { team_scope = "ops" }

abbrev in_ops : Request
in_ops = record edit { team_id = "ops"; object = "d1" }

grant_matches_request-Covers_example :
    (grant_matches_request ops_grant in_ops ≡ true) ↔ Covers ops_grant in_ops
grant_matches_request-Covers_example = grant_matches_request-Covers ops_grant in_ops

abbrev without_price : Grant
without_price = record ops_grant { restricted_fields = "price" ∷ [] }

abbrev no_price : Grant
no_price = record without_price { effect = "deny" }

abbrev two_fields : Grant
two_fields = record ops_grant { restricted_fields = "price" ∷ "cost" ∷ [] }

abbrev swapped_fields : Grant
swapped_fields = record ops_grant { restricted_fields = "cost" ∷ "price" ∷ [] }

grants_equivalent-SamePolicy_example : SamePolicy two_fields swapped_fields
unfolding program
grants_equivalent-SamePolicy_example = grants_equivalent-SamePolicy two_fields swapped_fields refl

-- ann may edit, but not the price
abbrev priced : Service
priced = record service {
  permissions =
      bootstrap_permission_store
        (record store {
          grants =
              grant_to principal_user "ann" "docs.edit"
              ∷ record (grant_to principal_role "editor" "docs.edit") {
                effect = "deny";
                restricted_fields = "price" ∷ [];
              }
              ∷ [];
        })
        100;
}

fields_of_ann :
    (filter_permitted_fields priced 100 edit ("name" ∷ "price.net" ∷ "name" ∷ []) cold).0
    ≡ ok ("name" ∷ [])
unfolding program
fields_of_ann = refl

filter_permitted_fields-Permitted_example :
    Permitted priced 100 edit (disabled_now priced 100 cold) ("name" ∷ "price.net" ∷ []) "name"
unfolding program
filter_permitted_fields-Permitted_example =
    filter_permitted_fields-Permitted priced 100 edit ("name" ∷ "price.net" ∷ []) ("name" ∷ []) cold
      "name" refl refl
