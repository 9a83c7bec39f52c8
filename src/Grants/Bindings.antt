-- ===== src/Grants/Bindings.antt =====
-- Variable scopes: `resolveGrantBindings` and `resolveScopeToken` of service.go.
use Prim.Native.String.{slice, len}
use text.Mathlib.TextPositions.{starts_with-append, slice-append_right, len-append}
use go_permissions.Base.{
  ◌≡◌, refl, String, Bool, false, not, [], ◌∷◌, Option, none, some, if◌then◌else◌, ◌==◌, is_empty,
}
use go_permissions.Base.Text.{has_prefix, concat}
use go_permissions.Base.Maps.{Map, get}
use go_permissions.Base.Results.{
  Result, ok, err, ◌>>=◌, missing_role_binding, missing_required_binding, missing_binding_value,
}
use go_permissions.Types.{Grant, Value, str, int, int64, opaque, itoa, principal_role}

-- `strings.TrimPrefix(s, prefix)`
trim_prefix : String → String → String
trim_prefix s prefix = if has_prefix s prefix then slice s (len prefix) (len s) else s

-- the `switch` on a binding value's dynamic type
unfoldable pub scope_text : Value → String
unfolding itoa
scope_text (str s) = s
scope_text (int n) = itoa n
scope_text (int64 n) = itoa n
scope_text (opaque v) = elim v.truncated [ none ↦ v.printed | some n ↦ itoa n ]

unfoldable pub resolve_scope_token : String → Map Value → Result String
unfolding trim_prefix scope_text
resolve_scope_token scope binding_values =
    if not (has_prefix scope "?")
    then ok scope
    else elim (get binding_values (trim_prefix scope "?")) [
      | none ↦ err (missing_binding_value (trim_prefix scope "?"))
      | some value ↦ ok (scope_text value)
    ]

-- the loop over `VariableSpec`: a variable marked "required" must have a value
is_required : Value → Bool
is_required (str s) = s == "required"
is_required _ = false

unfoldable pub check_required : String → Map Value → Map Value → Result (Unit {0})
unfolding is_required
check_required owner [] binding_values = ok tt
check_required owner ((key, spec) ∷ rest) binding_values =
    let tail = check_required owner rest binding_values in
    if is_required spec
    then elim (get binding_values key) [
      | none ↦ err (missing_required_binding key owner)
      | some _ ↦ tail
    ]
    else tail

resolve_object : Option String → Map Value → Result (Option String)
unfolding resolve_scope_token
resolve_object none binding_values = ok none
resolve_object (some scope) binding_values = do
  resolved ← resolve_scope_token scope binding_values
  ok (some resolved)

-- the binding values that a grant is resolved by
unfoldable pub bindings_of_owner : Grant → Map (Map Value) → Result (Map Value)
bindings_of_owner g by_role =
    if g.owner_kind == principal_role
    then elim (get by_role g.owner_id) [
      | none ↦ err (missing_role_binding g.owner_id)
      | some values ↦ ok values
    ]
    else ok []

unfoldable pub resolve_spec : Grant → Map Value → Map (Map Value) → Result Grant
unfolding bindings_of_owner check_required resolve_scope_token resolve_object
resolve_spec g spec by_role = do
  values ← bindings_of_owner g by_role
  _ ← check_required g.owner_id spec values
  team ← resolve_scope_token g.team_scope values
  object ← resolve_object g.object_scope values
  ok (record g { team_scope = team; object_scope = object })

-- a nil and an empty `VariableSpec` both leave the grant as it is
unfoldable pub resolve_grant_bindings : Grant → Map (Map Value) → Result Grant
unfolding resolve_spec
resolve_grant_bindings g by_role = elim g.variable_spec [
  | none ↦ ok g
  | some spec ↦ if is_empty spec then ok g else resolve_spec g spec by_role
]

-- A variable scope "?name" becomes the text of the value bound to `name`.
pub resolve_scope_token-variable :
    (name : String) (values : Map Value) (v : Value)
    → get values name ≡ some v
    → resolve_scope_token (concat "?" name) values ≡ ok (scope_text v)
unfolding resolve_scope_token
resolve_scope_token-variable name values v h =
    rw (starts_with-append "?" name) (rw (len-append "?" name, slice-append_right "?" name, h) refl)
