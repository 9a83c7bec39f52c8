-- ===== src/Types/Numbers/RoundTrip.antt =====
-- `strconv.Atoi` reads back what `strconv.Itoa` prints.
use Prim.Native.Char.{code}
use Prim.Native.String.append
use go_permissions.Base.{
  ℕ, suc, zero, ◌+◌, ◌-◌, ◌*◌, ◌/◌, ◌%◌, ◌≡◌, ◌≢◌, ◌≤◌, ◌<◌, ◌∙◌, refl, ap, String, some, ltb,
  arith, ne_of_test, Bool-cases, inl, inr,
}
use go_permissions.Base.Text.{concat}
use go_permissions.Types.{pos, itoa, digit, print_fuel}
use go_permissions.Types.Numbers.{max_int, scan_digits, parse_digits, in_range, atoi}

scan_digits-digit : (d n : ℕ) → d < 10 → scan_digits (digit d) n ≡ some (n * 10 + d)
unfolding scan_digits digit
scan_digits-digit zero n h = ap some (omega arith)
scan_digits-digit (suc zero) n h = ap some (omega arith)
scan_digits-digit (suc (suc zero)) n h = ap some (omega arith)
scan_digits-digit (suc (suc (suc zero))) n h = ap some (omega arith)
scan_digits-digit (suc (suc (suc (suc zero)))) n h = ap some (omega arith)
scan_digits-digit (suc (suc (suc (suc (suc zero))))) n h = ap some (omega arith)
scan_digits-digit (suc (suc (suc (suc (suc (suc zero)))))) n h = ap some (omega arith)
scan_digits-digit (suc (suc (suc (suc (suc (suc (suc zero))))))) n h = ap some (omega arith)
scan_digits-digit (suc (suc (suc (suc (suc (suc (suc (suc zero)))))))) n h = ap some (omega arith)
scan_digits-digit (suc (suc (suc (suc (suc (suc (suc (suc (suc zero))))))))) n h =
    ap some (omega arith)
scan_digits-digit (suc (suc (suc (suc (suc (suc (suc (suc (suc (suc d)))))))))) n h =
    absurd (omega arith)

-- digits in front of others
scan_digits-concat :
    (a b : String) (n m : ℕ)
    → scan_digits a n ≡ some m
    → scan_digits (concat a b) n ≡ scan_digits b m
unfolding scan_digits
scan_digits-concat String.[] b n m h = rw (append.nil b) (ground arith)
scan_digits-concat (String.◌∷◌ c s) b n m h =
    rw (append.cons c s b) (ground (arith, scan_digits-concat s b (n * 10 + (code c - b'0')) m))

scan_digits-print_fuel : (fuel n : ℕ) → n < fuel → scan_digits (print_fuel fuel n) 0 ≡ some n
unfolding print_fuel
scan_digits-print_fuel zero n h = absurd (omega arith)
scan_digits-print_fuel (suc fuel) n h = elim (Bool-cases (ltb n 10)) [
  | inl small ↦ rw small (scan_digits-digit n 0 (ground arith) ∙ ap some (omega arith))
  | inr large ↦ rw large (
      scan_digits-concat (print_fuel fuel (n / 10)) (digit (n % 10)) 0 (n / 10)
        (scan_digits-print_fuel fuel (n / 10) (ground arith))
      ∙ scan_digits-digit (n % 10) (n / 10) (omega arith)
      ∙ ap some (omega arith))
]

-- a text of digits begins with neither sign
atoi_of_digits : (s : String) (n : ℕ) → parse_digits s ≡ some n → atoi s ≡ in_range (some n)
unfolding atoi parse_digits scan_digits
atoi_of_digits String.[] n h = absurd (ground arith)
atoi_of_digits (String.◌∷◌ c s) n h = ground arith

parse_of_scan : (s : String) (n : ℕ) → s ≢ "" → scan_digits s 0 ≡ some n → parse_digits s ≡ some n
unfolding parse_digits
parse_of_scan String.[] n full h = absurd (full refl)
parse_of_scan (String.◌∷◌ c s) n full h = h

print_zero : print_fuel 1 0 ≢ ""
unfolding print_fuel digit
print_zero e = ne_of_test "0" "" refl e

print_full : (n : ℕ) → print_fuel (suc n) n ≢ ""
unfolding scan_digits
print_full zero e = print_zero e
print_full (suc n) e =
    let read : scan_digits (print_fuel (suc (suc n)) (suc n)) 0 ≡ some (suc n) =
      scan_digits-print_fuel (suc (suc n)) (suc n) (omega arith) in
    let zeroed : some 0 ≡ some (suc n) = rw e at read in absurd (ground arith)

-- Atoi reads back every number that an `int` holds and is not negative.
pub atoi-itoa : (n : ℕ) → n ≤ max_int → atoi (itoa (pos n)) ≡ some (pos n)
unfolding itoa in_range
atoi-itoa n fits =
    atoi_of_digits (print_fuel (suc n) n) n (
      parse_of_scan (print_fuel (suc n) n) n (print_full n)
        (scan_digits-print_fuel (suc n) n (omega arith)))
    ∙ ground arith

pub itoa_full : (n : ℕ) → itoa (pos n) ≢ ""
unfolding itoa
itoa_full n = print_full n
