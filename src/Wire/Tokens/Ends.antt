-- ===== src/Wire/Tokens/Ends.antt =====
-- The operations of the protocol of tokens end and do not lengthen the tokens.
use dag_executor.Common.{ℕ, zero, suc, List, [], ◌∷◌, length, arith}
use dag_executor.Wire.Result.{Result, ok, err, Error}
use dag_executor.Wire.Protocol.{TType, t_struct}
use dag_executor.Wire.Safe.{Leaves, LeavesLess, Leaves-le, Safe, Takes, Safe-Takes, Progress}
use dag_executor.Wire.Tokens.{
  Token, begin, end, one, take_begin, take_end, take_field, take_field_end, take_list,
  take_list_end, take_map, take_map_end, take_bool, take_int, take_double, take_string, skip_struct,
  skip_token, tokens,
}

fewer {ℓ} :
    {A : Type ℓ} (r : Result A) (ts : List Token)
    → LeavesLess
        (suc (length ts))
        (elim r [ ok a ↦ ok (a, ts) | err e ↦ err e | Result.stuck ↦ err Error.protocol ])
fewer (ok a) ts = omega arith
fewer (err e) ts = tt
fewer Result.stuck ts = tt

one-Takes {ℓ} : {A : Type ℓ} (f : Token → Result A) → Takes (one f)
one-Takes f = record { run = go }
  where
    go : (bytes : List Token) → LeavesLess (length bytes) (one f bytes)
    go [] = tt
    go (t ∷ ts) = fewer (f t) ts

one-Safe {ℓ} : {A : Type ℓ} (f : Token → Result A) (n : ℕ) → Safe n (one f)
one-Safe f n = Safe-Takes n (one-Takes f)

skip_struct_lem : (depth : ℕ) (ts : List Token) → Leaves (length ts) (skip_struct depth ts)
unfolding skip_struct
skip_struct_lem depth [] = tt
skip_struct_lem depth (begin ∷ ts) =
    Leaves-le (length ts) _ (skip_struct (suc depth) ts) (omega arith)
      (skip_struct_lem (suc depth) ts)
skip_struct_lem zero (end ∷ ts) = tt
skip_struct_lem (suc zero) (end ∷ ts) = omega arith
skip_struct_lem (suc (suc depth)) (end ∷ ts) =
    Leaves-le (length ts) _ (skip_struct (suc depth) ts) (omega arith)
      (skip_struct_lem (suc depth) ts)
skip_struct_lem depth (_ ∷ ts) =
    Leaves-le (length ts) _ (skip_struct depth ts) (omega arith) (skip_struct_lem depth ts)

skip_token_lem : (t : TType) (ts : List Token) → Leaves (length ts) (skip_token t ts)
unfolding skip_token
skip_token_lem t_struct ts = skip_struct_lem 0 ts
skip_token_lem t [] = tt
skip_token_lem t (_ ∷ ts) = omega arith

pub tokens-Progress : Progress tokens
unfolding tokens
tokens-Progress = record {
  struct_begin = one-Safe take_begin;
  struct_end = one-Safe take_end;
  field_begin = one-Takes take_field;
  field_end = one-Safe take_field_end;
  list_begin = one-Safe take_list;
  list_end = one-Safe take_list_end;
  map_begin = one-Safe take_map;
  map_end = one-Safe take_map_end;
  bool = one-Safe take_bool;
  i16 = one-Safe (take_int 15);
  i32 = one-Safe (take_int 31);
  i64 = one-Safe (take_int 63);
  double = one-Safe take_double;
  string = one-Safe take_string;
  skip = λ t n. record { run = λ bytes l. skip_token_lem t bytes };
}
