-- ===== src/ContextData/Orders.antt =====
-- The orders of the keys of the context's maps, `std::string` and `int64_t` (access_control/gen-cpp/
-- data_define_template_types.h).
use dag_executor.Common.{◌≡◌, Bool, true, false, not, [], ◌∷◌, arith, ltb, ◌==◌, ◌||◌, ◌&&◌}
use dag_executor.Common.Int.{ℤ, leb_ℤ}
use dag_executor.Common.OrderedMap.{Order}
use dag_executor.Util.{Text}

-- `operator<` of `std::string`: the first byte that differs decides, and a prefix comes first.
unfoldable pub text_lt : Text → Text → Bool
text_lt xs [] = false
text_lt [] (y ∷ ys) = true
text_lt (x ∷ xs) (y ∷ ys) = ltb x y || (x == y && text_lt xs ys)

pub text_lt-asym : (xs ys : Text) → text_lt xs ys ≡ true → text_lt ys xs ≡ false
unfolding text_lt
text_lt-asym xs [] h = cc
text_lt-asym [] (y ∷ ys) h = ground arith
text_lt-asym (x ∷ xs) (y ∷ ys) h = ground (arith, text_lt-asym xs ys)

pub text_lt_trans :
    (xs ys zs : Text) → text_lt xs ys ≡ true → text_lt ys zs ≡ true → text_lt xs zs ≡ true
unfolding text_lt
text_lt_trans xs ys [] h k = cc
text_lt_trans xs [] (z ∷ zs) h k = cc
text_lt_trans [] (y ∷ ys) (z ∷ zs) h k = cc
text_lt_trans (x ∷ xs) (y ∷ ys) (z ∷ zs) h k = ground (arith, text_lt_trans xs ys zs)

abbrev pub text_order : Order Text
text_order = record { lt = text_lt; asym = text_lt-asym; trans = text_lt_trans }

pub int_lt-asym : (a b : ℤ) → not (leb_ℤ b a) ≡ true → not (leb_ℤ a b) ≡ false
int_lt-asym a b h = ground arith

pub int_lt_trans :
    (a b c : ℤ) → not (leb_ℤ b a) ≡ true → not (leb_ℤ c b) ≡ true → not (leb_ℤ c a) ≡ true
int_lt_trans a b c h k = ground arith

abbrev pub int_order : Order ℤ
int_order = record { lt = λ a b. not (leb_ℤ b a); asym = int_lt-asym; trans = int_lt_trans }
