-- ===== src/Util/Decimal.antt =====
-- `std::to_string` and `std::stoi` (as util/basic_function.h uses them) undo one another.
use dag_executor.Common.{
  ℕ, zero, suc, ◌+◌, ◌-◌, ◌*◌, ◌/◌, ◌%◌, ◌^◌, ◌≤◌, ◌<◌, ◌≡◌, ◌≢◌, refl, some, [], ◌∷◌, ◌++◌, arith,
  ltb, if◌then◌else◌,
}
use dag_executor.Common.Int.{pos}
use dag_executor.Util.{Text, print_digits, print, read_digits, stoi_digits, stoi_signed, stoi}

-- Every byte is a decimal digit.
abbrev pub AllDigits : Text → Type 0
AllDigits [] = Unit
AllDigits (c ∷ cs) = ((48 ≤ c) × (c ≤ 57)) × AllDigits cs

pub AllDigits-append : (xs ys : Text) → AllDigits xs → AllDigits ys → AllDigits (xs ++ ys)
AllDigits-append [] ys hx hy = hy
AllDigits-append (x ∷ xs) ys hx hy = (hx.0, AllDigits-append xs ys hx.1 hy)

-- The digits of `n` before the last.
abbrev higher : ℕ → ℕ → Text
higher fuel n = if ltb n 10 then [] else print_digits fuel (n / 10)

print_digits-AllDigits : (fuel n : ℕ) → AllDigits (print_digits fuel n)
unfolding print_digits
print_digits-AllDigits zero n = tt
print_digits-AllDigits (suc fuel) n =
    AllDigits-append (higher fuel n) ((48 + n % 10) ∷ [])
      (ground (arith, print_digits-AllDigits fuel (n / 10))) ((omega arith, omega arith), tt)

read_digits-append :
    (acc d : ℕ) (xs : Text)
    → AllDigits xs
    → d < 10
    → read_digits acc (xs ++ (48 + d) ∷ []) ≡ read_digits acc xs * 10 + d
unfolding read_digits
read_digits-append acc d [] h lt = ground arith
read_digits-append acc d (x ∷ xs) h lt =
    ground (arith, read_digits-append (acc * 10 + (x - 48)) d xs)

read_digits-nil : read_digits 0 [] ≡ 0
unfolding read_digits
read_digits-nil = refl

append-ne-nil : (xs : Text) (x : ℕ) → xs ++ x ∷ [] ≢ []
append-ne-nil [] x e = cc
append-ne-nil (y ∷ xs) x e = cc

read_digits-higher :
    (fuel n : ℕ)
    → n < suc fuel
    → (n / 10 < fuel → read_digits 0 (print_digits fuel (n / 10)) ≡ n / 10)
    → read_digits 0 (higher fuel n) ≡ n / 10
read_digits-higher fuel n h ih = ground (arith, ih, read_digits-nil)

read_digits-print : (fuel n : ℕ) → n < fuel → read_digits 0 (print_digits fuel n) ≡ n
unfolding print_digits
read_digits-print zero n h = absurd (omega arith)
read_digits-print (suc fuel) n h = omega (
  arith,
  read_digits-append 0 (n % 10) (higher fuel n)
      (ground (arith, print_digits-AllDigits fuel (n / 10))) (omega arith),
  read_digits-higher fuel n h (read_digits-print fuel (n / 10)),
)

-- A printed number is a text of digits, with at least one of them, that reads as the number.
pub record IsNumeral (n : ℕ) (t : Text) : Type 0 where
  pub digits : AllDigits t
  pub some_digit : t ≢ []
  pub value : read_digits 0 t ≡ n

pub print-IsNumeral : (n : ℕ) → IsNumeral n (print n)
unfolding print print_digits
print-IsNumeral n = record {
  digits = print_digits-AllDigits (suc n) n;
  some_digit = append-ne-nil (higher n n) (48 + n % 10);
  value = read_digits-print (suc n) n (omega arith);
}

-- `stoi` reads back every number below 2 ^ 31 that `to_string` prints.
pub stoi-numeral : (n : ℕ) (t : Text) → IsNumeral n t → n < 2 ^ 31 → stoi t ≡ some (pos n)
unfolding stoi stoi_signed stoi_digits
stoi-numeral n [] h lt = absurd (h.some_digit refl)
stoi-numeral n (c ∷ cs) h lt = ground (arith, h.digits, h.value, lt)
