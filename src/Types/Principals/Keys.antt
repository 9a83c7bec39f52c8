-- ===== src/Types/Principals/Keys.antt =====
-- A principal's key determines it.
use Prim.Native.Char.{code}
use Prim.Native.String.append
use go_permissions.Base.{
  ◌≡◌, refl, sym, ap, ◌∙◌, String, Bool, true, false, arith, eq_iff, inl, inr, text_cases, some,
  nat_eq, if◌then◌else◌, ℕ,
}
use go_permissions.Base.Text.{concat}
use go_permissions.Base.Results.{ok}
use go_permissions.Types.{PrincipalRef, is_principal_kind, validate_principal}
use go_permissions.Types.Principals.{principal_key, parse_principal_key, split_first}

-- no character of the text has the code
unfoldable pub lacks : String → ℕ → Bool
lacks String.[] sep = true
lacks (String.◌∷◌ c s) sep = if nat_eq (code c) sep then false else lacks s sep

pub split_first-concat :
    (a b : String) → lacks a b':' ≡ true → split_first (concat a (concat ":" b)) b':' ≡ some (a, b)
unfolding split_first lacks
split_first-concat String.[] b h =
    rw (append.nil (concat ":" b), append.cons ":" "" b, append.nil b) refl
split_first-concat (String.◌∷◌ c s) b h =
    rw (append.cons c s (concat ":" b)) (ground (arith, split_first-concat s b))

kind_lacks : (kind : String) → is_principal_kind kind ≡ true → lacks kind b':' ≡ true
unfolding is_principal_kind lacks
kind_lacks kind h = elim (text_cases kind "user") [
  | inl e ↦ rw e refl
  | inr user ↦ elim (text_cases kind "group") [
    | inl e ↦ rw e refl
    | inr group ↦ elim (text_cases kind "team") [
      | inl e ↦ rw e refl
      | inr team ↦ rw ((eq_iff kind "role").0 (rw (← h) (ground arith))) refl
    ]
  ]
]

valid_kind : (p : PrincipalRef) → validate_principal p ≡ ok tt → is_principal_kind p.kind ≡ true
unfolding validate_principal
valid_kind p v = ground arith

-- parsePrincipalKey reads back every valid principal from its key, also one whose ID holds colons.
pub parse_principal_key-principal_key :
    (p : PrincipalRef) → validate_principal p ≡ ok tt → parse_principal_key (principal_key p) ≡ ok p
unfolding parse_principal_key principal_key
parse_principal_key-principal_key p v =
    ground
      (arith, split_first-concat p.kind p.id (kind_lacks p.kind (valid_kind p v)), valid_kind p v)

-- Two valid principals with one key are the same.
pub principal_key-injective :
    (p q : PrincipalRef)
    → validate_principal p ≡ ok tt
    → validate_principal q ≡ ok tt
    → principal_key p ≡ principal_key q
    → p ≡ q
principal_key-injective p q v w e =
    let read = ap parse_principal_key e in
    let same : ok p ≡ ok q =
      sym (parse_principal_key-principal_key p v) ∙ read ∙ parse_principal_key-principal_key q w in
    cc
