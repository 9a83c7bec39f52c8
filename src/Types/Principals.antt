-- ===== src/Types/Principals.antt =====
-- Keys of principals (`principalKey` and `parsePrincipalKey` of bootstrap_store.go).
pub mod Keys
use Prim.Native.Char.{code}
use go_permissions.Base.{ℕ, String, Option, none, some, nat_eq, if◌then◌else◌}
use go_permissions.Base.Text.{concat}
use go_permissions.Base.Results.{Result, ok, err, invalid_principal_key, invalid_principal_kind}
use go_permissions.Types.{PrincipalRef, is_principal_kind}

unfoldable pub principal_key : PrincipalRef → String
principal_key p = concat p.kind (concat ":" p.id)

-- `strings.SplitN(s, sep, 2)`: what stands before the first separator and what follows it
unfoldable pub split_first : String → ℕ → Option (String × String)
split_first String.[] sep = none
split_first (String.◌∷◌ c s) sep =
    let rest = split_first s sep in
    if nat_eq (code c) sep
    then some ("", s)
    else elim rest [ none ↦ none | some (a, b) ↦ some (String.◌∷◌ c a, b) ]

unfoldable pub parse_principal_key : String → Result PrincipalRef
unfolding split_first is_principal_kind
parse_principal_key key = elim (split_first key b':') [
  | none ↦ err (invalid_principal_key key)
  | some (kind, id) ↦
      if is_principal_kind kind
      then ok (record { kind = kind; id = id })
      else err (invalid_principal_kind kind)
]
