-- ===== src/Types/Numbers.antt =====
-- Go's 64-bit `int`: `strconv.Atoi`, and the addition that wraps around.
pub mod RoundTrip
use Prim.Native.Char.{code}
use go_permissions.Base.{
  ℕ, suc, ◌+◌, ◌-◌, ◌*◌, ◌^◌, ◌≡◌, ◌≢◌, ◌≤◌, ◌<◌, refl, ap, String, Bool, true, false, ◌&&◌, Option,
  none, some, leb, ltb, nat_eq, if◌then◌else◌, ◌==◌, arith, zero, ◌/◌, ◌%◌, Option-cases, inl, inr,
}
use go_permissions.Base.Text.{concat}
use go_permissions.Types.{ℤ, pos, negsuc, itoa, digit, print_fuel}

abbrev pub max_int : ℕ
max_int = 2 ^ 63 - 1

-- the digits, behind those that spell `n`
unfoldable pub scan_digits : String → ℕ → Option ℕ
scan_digits String.[] n = some n
scan_digits (String.◌∷◌ c s) n =
    let rest = scan_digits s (n * 10 + (code c - b'0')) in
    if leb b'0' (code c) && leb (code c) b'9' then rest else none

-- one or more digits
unfoldable pub parse_digits : String → Option ℕ
unfolding scan_digits
parse_digits String.[] = none
parse_digits (String.◌∷◌ c s) = scan_digits (String.◌∷◌ c s) 0

-- a magnitude that an `int` holds; a larger one is a range error
unfoldable pub in_range : Option ℕ → Option ℤ
in_range none = none
in_range (some n) = if leb n max_int then some (pos n) else none

negative_in_range : Option ℕ → Option ℤ
negative_in_range none = none
negative_in_range (some zero) = some (pos zero)
negative_in_range (some (suc n)) = if leb n max_int then some (negsuc n) else none

-- `strconv.Atoi`; `none` is an error
unfoldable pub atoi : String → Option ℤ
unfolding parse_digits in_range negative_in_range
atoi String.[] = none
atoi (String.◌∷◌ c s) =
    if nat_eq (code c) b'-'
    then negative_in_range (parse_digits s)
    else if nat_eq (code c) b'+'
    then in_range (parse_digits s)
    else in_range (parse_digits (String.◌∷◌ c s))

-- `a + n` on `int`, where `n` is small
unfoldable pub add_int : ℤ → ℕ → ℤ
add_int (pos a) n = if leb (a + n) max_int then pos (a + n) else negsuc (2 ^ 64 - (a + n) - 1)
add_int (negsuc a) n = if leb n a then negsuc (a - n) else pos (n - a - 1)

reads :
    (atoi "42" ≡ some (pos 42))
    × (atoi "-7" ≡ some (negsuc 6))
    × (atoi "9223372036854775808" ≡ none)
    × (atoi "-9223372036854775808" ≡ some (negsuc max_int))
    × (atoi "" ≡ none)
    × (atoi "4x" ≡ none)
unfolding atoi
reads = (refl, refl, refl, refl, refl, refl)
