-- ===== src/Util/Tests.antt =====
-- Texts of util/basic_function.h.
use dag_executor.Common.{◌+◌, ◌≡◌, [], ◌∷◌, ◌++◌, count}
use dag_executor.Common.Int.{ℤ, pos, negsuc}
use dag_executor.Util.{Text, Tm, serial_log}
use dag_executor.Util.Lines.{label_newlines, newlines-serial_log}

newlines-serial_log_example :
    (line : Text) × (serial_log (97 ∷ []) ((98 ∷ [], 10 ∷ []) ∷ []) (pos 3) (negsuc 6)
      ≡ line ++ b'\n' ∷ [])
    × (count b'\n' line ≡ count b'\n' (97 ∷ []) + label_newlines ((98 ∷ [], 10 ∷ []) ∷ []))
newlines-serial_log_example =
    newlines-serial_log (97 ∷ []) ((98 ∷ [], 10 ∷ []) ∷ []) (pos 3) (negsuc 6)

-- A stand-in for `std::mktime` that looks at the hour only.
abbrev mktime : Tm → ℤ
mktime tm = tm.tm_hour
