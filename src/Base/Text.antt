-- ===== src/Base/Text.antt =====
-- What the code uses of Go's `strings`: a text is its sequence of code points.
use Prim.Native.Char.{Char, code}
use Prim.Native.String.{◌++◌ as concat_text}
use text.Mathlib.Text.{starts_with}
use Prim.Native.Nat.{ℕ}
use Prim.Native.String.{String}
use mathlib.Core.Path.{◌≡◌, refl}
use mathlib.Core.Bool.{Bool, ◌&&◌, ◌||◌}
use mathlib.Core.List.{List, [], ◌∷◌}
use package.go_permissions.Base.Tests.{leb, nat_eq, if◌then◌else◌}

-- `a + b`
abbrev pub concat : String → String → String
concat = concat_text

-- `strings.HasPrefix(s, prefix)`
abbrev pub has_prefix : String → String → Bool
has_prefix = starts_with

-- `unicode.IsSpace`
is_space : ℕ → Bool
is_space c =
    leb 9 c && leb c 13
    || nat_eq c 32
    || nat_eq c 0x85
    || nat_eq c 0xa0
    || nat_eq c 0x1680
    || leb 0x2000 c && leb c 0x200a
    || nat_eq c 0x2028
    || nat_eq c 0x2029
    || nat_eq c 0x202f
    || nat_eq c 0x205f
    || nat_eq c 0x3000

trim_left : String → String
unfolding is_space
trim_left String.[] = String.[]
trim_left (String.◌∷◌ c s) = if is_space (code c) then trim_left s else String.◌∷◌ c s

-- `c` in front of a text whose right end is trimmed.
trim_cons : Char → String → String
unfolding is_space
trim_cons c String.[] = if is_space (code c) then String.[] else String.◌∷◌ c String.[]
trim_cons c (String.◌∷◌ d s) = String.◌∷◌ c (String.◌∷◌ d s)

trim_right : String → String
unfolding trim_cons
trim_right String.[] = String.[]
trim_right (String.◌∷◌ c s) = trim_cons c (trim_right s)

-- `strings.TrimSpace`
unfoldable pub trim_space : String → String
unfolding trim_left trim_right
trim_space s = trim_right (trim_left s)

-- `strings.Join(parts, sep)`
unfoldable pub join : List String → String → String
join [] sep = ""
join (p ∷ []) sep = p
join (p ∷ q ∷ ps) sep = concat p (concat sep (join (q ∷ ps) sep))

-- `strings.Split(s, sep)` for a separator of one character: `part` is the part being read, in reverse order of reading.
cons_part : Char → List String → List String
cons_part c [] = String.◌∷◌ c String.[] ∷ []
cons_part c (p ∷ ps) = String.◌∷◌ c p ∷ ps

unfoldable pub split : String → ℕ → List String
unfolding cons_part
split String.[] sep = String.[] ∷ []
split (String.◌∷◌ c s) sep =
    let rest = split s sep in if nat_eq (code c) sep then String.[] ∷ rest else cons_part c rest

trims : trim_space " \t a b\n" ≡ "a b"
unfolding trim_space
trims = refl

splits : split "a..b" b'.' ≡ "a" ∷ "" ∷ "b" ∷ []
unfolding split
splits = refl
