-- ===== src/Types/Values.antt =====
-- Values of Go's `any`, as the code observes them.
use go_permissions.Base.{
  ℕ, zero, suc, ◌/◌, ◌%◌, ◌≡◌, refl, String, Bool, true, false, ◌&&◌, Option, nat_eq, ltb,
  if◌then◌else◌, ◌==◌, arith, eq_refl,
}
use go_permissions.Base.Text.{concat}

-- `negsuc n` is -(n + 1).
pub data ℤ : Type 0 where
  pos : ℕ → ℤ
  negsuc : ℕ → ℤ

-- A value of another dynamic type is what the code can observe of it: its type's name, its class under
-- `reflect.DeepEqual`, the text that `fmt` prints for it, and, of a `float64`, the integer that `int64(v)`
-- gives. (A NaN, which differs from itself, is left out.)
pub record Opaque : Type 0 where
  pub type_name : String
  pub identity : ℕ
  pub printed : String
  pub truncated : Option ℤ

pub data Value : Type 0 where
  str : String → Value
  int : ℤ → Value
  int64 : ℤ → Value
  opaque : Opaque → Value

unfoldable pub digit : ℕ → String
digit zero = "0"
digit (suc zero) = "1"
digit (suc (suc zero)) = "2"
digit (suc (suc (suc zero))) = "3"
digit (suc (suc (suc (suc zero)))) = "4"
digit (suc (suc (suc (suc (suc zero))))) = "5"
digit (suc (suc (suc (suc (suc (suc zero)))))) = "6"
digit (suc (suc (suc (suc (suc (suc (suc zero))))))) = "7"
digit (suc (suc (suc (suc (suc (suc (suc (suc zero)))))))) = "8"
digit _ = "9"

-- decimal digits; `fuel` is above the number, which falls at each division
unfoldable pub print_fuel : ℕ → ℕ → String
unfolding digit
print_fuel zero n = ""
print_fuel (suc fuel) n =
    let rest = print_fuel fuel (n / 10) in
    if ltb n 10 then digit n else concat rest (digit (n % 10))

-- `strconv.Itoa`, `strconv.FormatInt(_, 10)`
unfoldable pub itoa : ℤ → String
unfolding print_fuel
itoa (pos n) = print_fuel (suc n) n
itoa (negsuc n) = concat "-" (print_fuel (suc (suc n)) (suc n))

-- `fmt.Sprint(v)`, `fmt.Sprintf("%v", v)`
unfoldable pub sprint : Value → String
unfolding itoa
sprint (str s) = s
sprint (int n) = itoa n
sprint (int64 n) = itoa n
sprint (opaque v) = v.printed

unfoldable pub int_eq : ℤ → ℤ → Bool
int_eq (pos a) (pos b) = nat_eq a b
int_eq (negsuc a) (negsuc b) = nat_eq a b
int_eq _ _ = false

-- `reflect.DeepEqual` at two values; those of one class may print differently, as 0.0 and -0.0 do, or
-- two pointers to equal values
unfoldable pub deep_equal : Value → Value → Bool
unfolding int_eq
deep_equal (str a) (str b) = a == b
deep_equal (int a) (int b) = int_eq a b
deep_equal (int64 a) (int64 b) = int_eq a b
deep_equal (opaque a) (opaque b) = a.type_name == b.type_name && nat_eq a.identity b.identity
deep_equal _ _ = false

pub deep_equal_refl : (v : Value) → deep_equal v v ≡ true
unfolding deep_equal int_eq
deep_equal_refl (str a) = eq_refl a
deep_equal_refl (int (pos a)) = ground arith
deep_equal_refl (int (negsuc a)) = ground arith
deep_equal_refl (int64 (pos a)) = ground arith
deep_equal_refl (int64 (negsuc a)) = ground arith
deep_equal_refl (opaque a) = ground (arith, eq_refl a.type_name)

prints : itoa (negsuc 1041) ≡ "-1042"
unfolding itoa
prints = refl
