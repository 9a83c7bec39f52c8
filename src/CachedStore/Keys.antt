-- ===== src/CachedStore/Keys.antt =====
-- Two reads have one key only if they ask the same.
use go_permissions.Base.{
  ◌≡◌, ◌⊎◌, ◌∙◌, refl, sym, ap, String, true, Option, none, some, inl, inr, arith,
}
use go_permissions.Base.Text.{concat}
use go_permissions.Types.Principals.{split_first}
use go_permissions.Types.Principals.Keys.{lacks, split_first-concat}
use go_permissions.CachedStore.{
  Query, all_roles, one_role, assignments_of, holders_of, grants_of, expanded, owned, granted,
  listed, prefix, make_key,
}

-- What is relied on, for the reads that are asked: `json.Marshal` encodes their arguments, and those of two reads by one method
-- differently where they differ.
pub record IsMarshal (marshal : Query → Option String) (Asked : Query → Type 0) : Type 0 where
  pub total : (q : Query) → Asked q → (e : String) × (marshal q ≡ some e)
  pub distinct :
      (q r : Query) → Asked q → Asked r → prefix q ≡ prefix r → marshal q ≡ marshal r → q ≡ r

prefix-lacks : (q : Query) → lacks (prefix q) b':' ≡ true
unfolding prefix lacks
prefix-lacks all_roles = refl
prefix-lacks (one_role _) = refl
prefix-lacks (assignments_of _) = refl
prefix-lacks (holders_of _) = refl
prefix-lacks (grants_of _) = refl
prefix-lacks (expanded _) = refl
prefix-lacks (owned _ _) = refl
prefix-lacks (granted _) = refl
prefix-lacks (listed _) = refl

part : (String × String → String) → Option (String × String) → String
part f none = ""
part f (some p) = f p

same_parts : (p q : String × String) → some p ≡ some q → (p.0 ≡ q.0) × (p.1 ≡ q.1)
unfolding part
same_parts p q e = (ap (part (λ r. r.0)) e, ap (part (λ r. r.1)) e)

module _ (marshal : Query → Option String) (Asked : Query → Type 0)
    (v : IsMarshal marshal Asked) where
  abbrev Encoded : Query → Type 0
  Encoded q =
      (e : String) × (marshal q ≡ some e) × (make_key marshal q ≡ concat (prefix q) (concat ":" e))

  encoded :
      (q : Query)
      → Asked q
      → ((e : String) → marshal q ≡ some e → make_key marshal q ≡ concat (prefix q) (concat ":" e))
      → Encoded q
  encoded q asked h = let (e, some_e) = v.total q asked in (e, some_e, h e some_e)

  key_cases : (q : Query) → Asked q → (q ≡ all_roles) ⊎ Encoded q
  unfolding make_key
  key_cases all_roles asked = inl refl
  key_cases (one_role i) asked = inr (encoded (one_role i) asked λ e h. ground arith)
  key_cases (assignments_of p) asked = inr (encoded (assignments_of p) asked λ e h. ground arith)
  key_cases (holders_of i) asked = inr (encoded (holders_of i) asked λ e h. ground arith)
  key_cases (grants_of p) asked = inr (encoded (grants_of p) asked λ e h. ground arith)
  key_cases (expanded ids) asked = inr (encoded (expanded ids) asked λ e h. ground arith)
  key_cases (owned ps r) asked = inr (encoded (owned ps r) asked λ e h. ground arith)
  key_cases (granted r) asked = inr (encoded (granted r) asked λ e h. ground arith)
  key_cases (listed r) asked = inr (encoded (listed r) asked λ e h. ground arith)

  split_key :
      (q : Query)
      → (e : String) → make_key marshal q ≡ concat (prefix q) (concat ":" e)
      → split_first (make_key marshal q) b':' ≡ some (prefix q, e)
  split_key q e h = rw h (split_first-concat (prefix q) e (prefix-lacks q))

  split_bare : split_first (make_key marshal all_roles) b':' ≡ none
  unfolding make_key split_first
  split_bare = refl

  -- Two reads with one key are the same read.
  pub make_key-injective :
      (q r : Query) → Asked q → Asked r → make_key marshal q ≡ make_key marshal r → q ≡ r
  make_key-injective q r asked asked' same =
      let split = ap (λ k. split_first k b':') same in
      elim (key_cases q asked) [
        | inl bare ↦ elim (key_cases r asked') [
          | inl bare' ↦ bare ∙ sym bare'
          | inr (e, _, h) ↦ absurd (
              ground (
                arith,
                split_key r e h,
                split_bare,
                ap (λ k. split_first (make_key marshal k) b':') bare,
              ))
        ]
        | inr (e, m, h) ↦ elim (key_cases r asked') [
          | inl bare' ↦ absurd (
              ground (
                arith,
                split_key q e h,
                split_bare,
                ap (λ k. split_first (make_key marshal k) b':') bare',
              ))
          | inr (f, n, g) ↦
              let (method, argument) =
                same_parts (prefix q, e) (prefix r, f)
                  (sym (split_key q e h) ∙ split ∙ split_key r f g) in
              v.distinct q r asked asked' method (m ∙ ap some argument ∙ sym n)
        ]
      ]
