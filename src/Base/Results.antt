-- ===== src/Base/Results.antt =====
-- Errors as values. A constructor stands for each `fmt.Errorf` and each panic.
use Prim.Native.String.{String}
use mathlib.Core.Path.{◌≡◌, refl}
use mathlib.Core.Logic.{◌⊎◌, inl, inr}

pub data Error : Type 0 where
  permission_name_required owner_id_required team_scope_required : Error
  role_id_required role_name_required principal_id_required user_id_required : Error
  parent_role_id_required child_role_id_required self_inheritance : Error
  unsupported_kind not_built_in role_exists role_not_found : String → Error
  invalid_role_scope invalid_principal_key invalid_principal_kind : String → Error
  role_not_assigned : String → String → Error
  missing_role_binding missing_binding_value : String → Error
  missing_required_binding : String → String → Error
  indexed_field_path : String → Error
  field_path_required : Error
  cannot_update_built_in cannot_delete_built_in cannot_delete_grants : String → Error
  role_owned_only : Error
  -- `fmt.Errorf("...: %w", err)`
  wrapped : String → Error → Error
  -- an error with no other data than its text
  message : String → Error
  -- an error of a component behind an interface
  external : String → Error
  -- a run-time panic
  panic : String → Error

pub data Result {ℓ} (A : Type ℓ) : Type ℓ where
  ok : A → Result A
  err : Error → Result A

infixl 5 ◌>>=◌
abbrev pub ◌>>=◌ {ℓ κ} : {A : Type ℓ} {B : Type κ} → Result A → (A → Result B) → Result B
ok a >>= f = f a
err e >>= f = err e

pub Result-cases {ℓ} :
    {A : Type ℓ} (r : Result A) → ((a : A) × (r ≡ ok a)) ⊎ ((e : Error) × (r ≡ err e))
Result-cases (ok a) = inl (a, refl)
Result-cases (err e) = inr (e, refl)

-- What holds of both cases holds of the case split.
pub result_intro {ℓ κ μ} :
    {A : Type ℓ} {B : Type κ} (P : B → Type μ) (r : Result A) {f : A → B} {g : Error → B}
    → ((a : A) → r ≡ ok a → P (f a))
    → ((e : Error) → r ≡ err e → P (g e))
    → P (elim r [ err e ↦ g e | ok a ↦ f a ])
result_intro P (ok a) h k = h a refl
result_intro P (err e) h k = k e refl
