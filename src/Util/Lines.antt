-- ===== src/Util/Lines.antt =====
-- The lines of `serial_log` (util/basic_function.h).
use mathlib.Core.List.{append_assoc}
use dag_executor.Common.{ℕ, suc, ◌+◌, ◌≡◌, refl, List, [], ◌∷◌, ◌++◌, arith, count, count-append}
use dag_executor.Common.Int.{ℤ, pos, negsuc}
use dag_executor.Util.{Text, print, to_string, serial_labels, serial_log}
use dag_executor.Util.Decimal.{AllDigits, print-IsNumeral}

-- The newlines in the names and values of the labels.
pub label_newlines : List (Text × Text) → ℕ
label_newlines [] = 0
label_newlines ((name, value) ∷ labels) =
    count b'\n' name + count b'\n' value + label_newlines labels

count-digits : (t : Text) → AllDigits t → count b'\n' t ≡ 0
count-digits [] h = omega arith
count-digits (c ∷ cs) h = ground (arith, count-digits cs h.1)

count-to_string : (z : ℤ) → count b'\n' (to_string z) ≡ 0
unfolding to_string
count-to_string (pos n) = count-digits (print n) (print-IsNumeral n).digits
count-to_string (negsuc n) =
    ground (arith, count-digits (print (suc n)) (print-IsNumeral (suc n)).digits)

count-labels :
    (labels : List (Text × Text)) → count b'\n' (serial_labels labels) ≡ label_newlines labels
unfolding serial_labels label_newlines
count-labels [] = refl
count-labels ((name, value) ∷ labels) = omega (arith, count-append, count-labels labels)

-- A log ends its line itself: it is a text and a newline behind that, and the text has no other
-- newlines than those of the metric's name and of the labels, whatever the counter and the time.
pub newlines-serial_log :
    (name : Text) (labels : List (Text × Text)) (counter time : ℤ)
    → (line : Text) × (serial_log name labels counter time ≡ line ++ b'\n' ∷ [])
      × (count b'\n' line ≡ count b'\n' name + label_newlines labels)
unfolding serial_log
newlines-serial_log name labels counter time = (
  name ++ b' ' ∷ (to_string time ++ b' ' ∷ (to_string counter ++ b' ' ∷ serial_labels labels)),
  simp append_assoc,
  simp (count-append, count-to_string, count-labels) (omega arith),
)
