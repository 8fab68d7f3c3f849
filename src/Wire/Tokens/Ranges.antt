-- ===== src/Wire/Tokens/Ranges.antt =====
-- The protocol of tokens returns numbers in the ranges of the C++ types.
use dag_executor.Common.{ℕ, ◌<◌, ◌^◌, List, [], ◌∷◌, arith}
use dag_executor.Common.Int.{pos, negsuc}
use dag_executor.Wire.Protocol.{IsSigned}
use dag_executor.Wire.Gives.{Gives, InRange, On}
use dag_executor.Wire.Tokens.{Token, int, list, map, one, take_int, take_list, take_map, tokens}

take_int_range : (w : ℕ) → Gives (one (take_int w)) (IsSigned w)
unfolding take_int
take_int_range w = record { run = go }
  where
    go : (ts : List Token) → On (IsSigned w) (one (take_int w) ts)
    go [] = tt
    go (int (pos n) ∷ ts) = ground arith
    go (int (negsuc n) ∷ ts) = ground arith
    go (_ ∷ ts) = tt

take_list_range : Gives (one take_list) (λ h. h.1 < 2 ^ 32)
unfolding take_list
take_list_range = record { run = go }
  where
    go : (ts : List Token) → On (λ h. h.1 < 2 ^ 32) (one take_list ts)
    go [] = tt
    go (list t n ∷ ts) = ground arith
    go (_ ∷ ts) = tt

take_map_range : Gives (one take_map) (λ h. h.2 < 2 ^ 32)
unfolding take_map
take_map_range = record { run = go }
  where
    go : (ts : List Token) → On (λ h. h.2 < 2 ^ 32) (one take_map ts)
    go [] = tt
    go (map k v n ∷ ts) = ground arith
    go (_ ∷ ts) = tt

pub tokens-InRange : InRange tokens
unfolding tokens
tokens-InRange = record {
  i16 = take_int_range 15;
  i32 = take_int_range 31;
  i64 = take_int_range 63;
  list_begin = take_list_range;
  map_begin = take_map_range;
}
