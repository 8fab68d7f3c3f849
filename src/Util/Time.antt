-- ===== src/Util/Time.antt =====
-- `get_chrono_time` of util/basic_function.h on times as its comment writes them.
use mathlib.Core.List.{append-nil, append_assoc}
use dag_executor.Common.{
  ℕ, ◌^◌, ◌<◌, ◌≡◌, ◌≢◌, refl, ap, ◌∙◌, sym, some, List, [], ◌∷◌, ◌++◌, map, arith, length,
}
use dag_executor.Common.Int.{ℤ, pos, negsuc}
use dag_executor.Util.{Text, Tm, print, stoi, time_fields, chrono_of, get_chrono_time}
use dag_executor.Util.Decimal.{AllDigits, print-IsNumeral, stoi-numeral}

-- `2020-12-31-23-59-59`: numbers joined by dashes.
pub format : ℕ → List ℕ → Text
format v [] = print v
format v (w ∷ ws) = print v ++ b'-' ∷ format w ws

abbrev pub AllInt : List ℕ → Type 0
AllInt [] = Unit
AllInt (v ∷ vs) = (v < 2 ^ 31) × AllInt vs

-- The loop collects digits in `tmp`.
time_fields-digits :
    (xs rest tmp : Text) (vec : List ℤ)
    → AllDigits xs
    → time_fields (xs ++ rest) tmp vec ≡ time_fields rest (tmp ++ xs) vec
unfolding time_fields
time_fields-digits [] rest tmp vec h = rw (append-nil tmp)
time_fields-digits (x ∷ xs) rest tmp vec h =
    ground (arith, time_fields-digits xs rest (tmp ++ x ∷ []) vec, append_assoc tmp (x ∷ []) xs, h)

stoi-print : (n : ℕ) → n < 2 ^ 31 → stoi (print n) ≡ some (pos n)
stoi-print n lt = stoi-numeral n (print n) (print-IsNumeral n) lt

time_fields-format :
    (v : ℕ) (ws : List ℕ) (vec : List ℤ)
    → AllInt (v ∷ ws)
    → time_fields (format v ws) [] vec ≡ some (vec ++ map pos (v ∷ ws))
unfolding time_fields format
time_fields-format v [] vec h =
    ap (λ t. time_fields t [] vec) (sym (append-nil (print v)))
    ∙ time_fields-digits (print v) [] [] vec (print-IsNumeral v).digits
    ∙ rw (stoi-print v h.0)
time_fields-format v (w ∷ ws) vec h =
    time_fields-digits (print v) (b'-' ∷ format w ws) [] vec (print-IsNumeral v).digits
    ∙ rw (stoi-print v h.0)
        (time_fields-format w ws (vec ++ pos v ∷ []) h.1 ∙ ap some (append_assoc vec _ _))

chrono_of-other :
    (mktime : Tm → ℤ) (v : ℕ) (ws : List ℕ)
    → length ws ≢ 5
    → chrono_of mktime (map pos (v ∷ ws)) ≡ some (negsuc 0)
unfolding chrono_of
chrono_of-other mktime v [] h = refl
chrono_of-other mktime v (a ∷ []) h = refl
chrono_of-other mktime v (a ∷ b ∷ []) h = refl
chrono_of-other mktime v (a ∷ b ∷ c ∷ []) h = refl
chrono_of-other mktime v (a ∷ b ∷ c ∷ d ∷ []) h = refl
chrono_of-other mktime v (a ∷ b ∷ c ∷ d ∷ e ∷ []) h = absurd (h refl)
chrono_of-other mktime v (a ∷ b ∷ c ∷ d ∷ e ∷ f ∷ rest) h = refl

module _ (mktime : Tm → ℤ) where
  -- Any other number of such numbers, at least one, gives -1, without an exception of `std::stoi`.
  pub get_chrono_time-other :
      (v : ℕ) (ws : List ℕ)
      → AllInt (v ∷ ws)
      → length ws ≢ 5
      → get_chrono_time mktime (format v ws) ≡ some (negsuc 0)
  unfolding get_chrono_time
  get_chrono_time-other v ws h other =
      rw (time_fields-format v ws [] h) (chrono_of-other mktime v ws other)
