-- ===== src/Util.antt =====
-- util/basic_function.h: `serial_log` and `get_chrono_time`. A text is the list of its bytes.
pub mod Decimal
pub mod Time
pub mod Lines
mod Tests
use dag_executor.Common.{
  ℕ, zero, suc, ◌+◌, ◌-◌, ◌*◌, ◌/◌, ◌%◌, ◌^◌, Bool, true, false, ◌&&◌, ◌||◌, Option, none, some,
  List, [], ◌∷◌, ◌++◌, leb, ltb, ◌==◌, if◌then◌else◌, ◌>>=◌,
}
use dag_executor.Common.Int.{ℤ, pos, negsuc, ◌-ℤ◌}

abbrev pub Text : Type 0
Text = List ℕ

-- The decimal digits of a number below `10 ^ fuel`.
print_digits : ℕ → ℕ → Text
print_digits zero n = []
print_digits (suc fuel) n =
    let rest = print_digits fuel (n / 10) in (if ltb n 10 then [] else rest) ++ (48 + n % 10) ∷ []

-- `std::to_string` of a number that is not negative
unfoldable pub print : ℕ → Text
unfolding print_digits
print n = print_digits (suc n) n

-- `std::to_string(long long)`
unfoldable pub to_string : ℤ → Text
unfolding print
to_string (pos n) = print n
to_string (negsuc n) = b'-' ∷ print (suc n)

-- The labels of a log in the order in which the `unordered_map` gives them.
pub serial_labels : List (Text × Text) → Text
serial_labels [] = []
serial_labels ((name, value) ∷ labels) = name ++ b'=' ∷ value ++ b' ' ∷ serial_labels labels

-- `serial_log`
unfoldable pub serial_log : Text → List (Text × Text) → ℤ → ℤ → Text
unfolding serial_labels
serial_log metric_name labels counter send_time =
    metric_name
    ++ b' '
      ∷ (to_string send_time
          ++ b' ' ∷ (to_string counter ++ b' ' ∷ (serial_labels labels ++ b'\n' ∷ [])))

abbrev is_digit : ℕ → Bool
is_digit c = leb b'0' c && leb c b'9'

-- `isspace` in the "C" locale
abbrev is_space : ℕ → Bool
is_space c = c == 32 || (leb 9 c && leb c 13)

pub read_digits : ℕ → Text → ℕ
read_digits acc [] = acc
read_digits acc (c ∷ cs) = elim (is_digit c) [
  | true ↦ read_digits (acc * 10 + (c - 48)) cs
  | false ↦ acc
]

-- The digits at the head of a text; `std::stoi` throws `invalid_argument` if there is none.
stoi_digits : Text → Option ℕ
unfolding read_digits
stoi_digits [] = none
stoi_digits (c ∷ cs) = if is_digit c then some (read_digits 0 (c ∷ cs)) else none

-- `std::stoi` throws `out_of_range` past the range of `int`.
abbrev stoi_pos : ℕ → Option ℤ
stoi_pos n = if ltb n (2 ^ 31) then some (pos n) else none

abbrev stoi_neg : ℕ → Option ℤ
stoi_neg zero = some (pos 0)
stoi_neg (suc n) = if ltb n (2 ^ 31) then some (negsuc n) else none

-- After the white space: an optional sign and the digits. What follows them is ignored.
stoi_signed : Text → Option ℤ
unfolding stoi_digits
stoi_signed [] = none
stoi_signed (c ∷ cs) =
    if c == b'-'
    then stoi_digits cs >>= stoi_neg
    else if c == b'+'
    then stoi_digits cs >>= stoi_pos
    else stoi_digits (c ∷ cs) >>= stoi_pos

-- `std::stoi`; `none` is an exception.
unfoldable pub stoi : Text → Option ℤ
unfolding stoi_signed
stoi [] = none
stoi (c ∷ cs) = let rest = stoi cs in if is_space c then rest else stoi_signed (c ∷ cs)

-- The loop of `get_chrono_time` over the characters, with `tmp` and `time_vec`, and the last
-- `push_back` behind it.
pub time_fields : Text → Text → List ℤ → Option (List ℤ)
unfolding stoi
time_fields [] tmp time_vec = stoi tmp >>= λ v. some (time_vec ++ v ∷ [])
time_fields (c ∷ cs) tmp time_vec = elim (c == b'-') [
  | true ↦ stoi tmp >>= λ v. time_fields cs [] (time_vec ++ v ∷ [])
  | false ↦ time_fields cs (tmp ++ c ∷ []) time_vec
]

-- The fields of `std::tm` that `get_chrono_time` sets.
pub record Tm : Type 0 where
  pub tm_year : ℤ
  pub tm_mon : ℤ
  pub tm_mday : ℤ
  pub tm_hour : ℤ
  pub tm_min : ℤ
  pub tm_sec : ℤ

-- `from_time_t` counts nanoseconds in 64 bits, `none` where they do not hold them, which C++ leaves
-- undefined. The difference from `from_time_t(0)` is that count.
abbrev pub nanoseconds : ℤ → Option ℤ
nanoseconds (pos n) = if ltb (n * 10 ^ 9) (2 ^ 63) then some (pos (n * 10 ^ 9)) else none
nanoseconds (negsuc n) =
    if leb (suc n * 10 ^ 9) (2 ^ 63) then some (negsuc (suc n * 10 ^ 9 - 1)) else none

-- `std::mktime` reads the time zone of the host: it is a parameter.
module _ (mktime : Tm → ℤ) where
  -- `get_chrono_time` behind its loop
  pub chrono_of : List ℤ → Option ℤ
  chrono_of (year ∷ mon ∷ mday ∷ hour ∷ min ∷ sec ∷ []) = nanoseconds (
      mktime (record {
        tm_year = year -ℤ pos 1900;
        tm_mon = mon -ℤ pos 1;
        tm_mday = mday;
        tm_hour = hour;
        tm_min = min;
        tm_sec = sec;
      }))
  chrono_of _ = some (negsuc 0)

  -- `get_chrono_time`; `none` is an exception of `std::stoi` or an overflow.
  unfoldable pub get_chrono_time : Text → Option ℤ
  unfolding time_fields chrono_of
  get_chrono_time time = time_fields time [] [] >>= λ time_vec. chrono_of time_vec
