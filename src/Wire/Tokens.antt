-- ===== src/Wire/Tokens.antt =====
-- A protocol whose bytes are tokens, with numbers for `double`: an instance for the tests.
pub mod Ends
pub mod Ranges
use dag_executor.Common.{
  List, ◌<◌, ◌^◌, ◌≡◌, true, ltb, arith, if◌then◌else◌, ℕ, zero, suc, Bool, [], ◌∷◌, refl,
}
use dag_executor.Common.Int.{ℤ, pos, negsuc}
use dag_executor.Util.{Text}
use dag_executor.Wire.Result.{AppError, Result, ok, err, Error, M}
use dag_executor.Wire.Protocol.{TType, t_stop, t_i32, t_struct, MessageType, Protocol, IsSigned}
use dag_executor.Wire.Reads.{Reads, Laws}

pub data Token : Type 0 where
  begin end field_end list_end map_end message_end : Token
  field : TType → ℤ → Token
  list : TType → ℕ → Token
  map : TType → TType → ℕ → Token
  message : Text → MessageType → ℤ → Token
  bool : Bool → Token
  int : ℤ → Token
  double : ℕ → Token
  string : Text → Token
  exception : AppError → Text → Token

-- One token, if it is the right one.
abbrev one {ℓ} : {A : Type ℓ} → (Token → Result A) → M Token A
one f [] = err Error.protocol
one f (t ∷ ts) = elim (f t) [
  | ok a ↦ ok (a, ts)
  | err e ↦ err e
  | Result.stuck ↦ err Error.protocol
]

take_begin : Token → Result (Unit {0})
take_begin begin = ok tt
take_begin _ = err Error.protocol

take_end : Token → Result (Unit {0})
take_end end = ok tt
take_end _ = err Error.protocol

take_field : Token → Result (TType × ℤ)
take_field (field t id) = ok (t, id)
take_field _ = err Error.protocol

take_field_end : Token → Result (Unit {0})
take_field_end field_end = ok tt
take_field_end _ = err Error.protocol

take_list : Token → Result (TType × ℕ)
take_list (list t n) = if ltb n (2 ^ 32) then ok (t, n) else err Error.protocol
take_list _ = err Error.protocol

take_list_end : Token → Result (Unit {0})
take_list_end list_end = ok tt
take_list_end _ = err Error.protocol

take_map : Token → Result (TType × TType × ℕ)
take_map (map k v n) = if ltb n (2 ^ 32) then ok (k, v, n) else err Error.protocol
take_map _ = err Error.protocol

take_map_end : Token → Result (Unit {0})
take_map_end map_end = ok tt
take_map_end _ = err Error.protocol

take_message : Token → Result (Text × MessageType × ℤ)
take_message (message name t id) = ok (name, t, id)
take_message _ = err Error.protocol

take_message_end : Token → Result (Unit {0})
take_message_end message_end = ok tt
take_message_end _ = err Error.protocol

take_bool : Token → Result Bool
take_bool (bool b) = ok b
take_bool _ = err Error.protocol

-- A signed number of `w + 1` bits.
abbrev fits : ℕ → ℤ → Bool
fits w (pos n) = ltb n (2 ^ w)
fits w (negsuc n) = ltb n (2 ^ w)

take_int : ℕ → Token → Result ℤ
take_int w (int z) = if fits w z then ok z else err Error.protocol
take_int w _ = err Error.protocol

take_double : Token → Result ℕ
take_double (double d) = ok d
take_double _ = err Error.protocol

take_string : Token → Result Text
take_string (string t) = ok t
take_string _ = err Error.protocol

-- Over a structure, `depth` structures deep.
skip_struct : ℕ → M Token (Unit {0})
skip_struct depth [] = err Error.protocol
skip_struct depth (begin ∷ ts) = skip_struct (suc depth) ts
skip_struct zero (end ∷ ts) = err Error.protocol
skip_struct (suc zero) (end ∷ ts) = ok (tt, ts)
skip_struct (suc (suc depth)) (end ∷ ts) = skip_struct (suc depth) ts
skip_struct depth (_ ∷ ts) = skip_struct depth ts

skip_token : TType → M Token (Unit {0})
unfolding skip_struct
skip_token t_struct ts = skip_struct 0 ts
skip_token t [] = err Error.protocol
skip_token t (_ ∷ ts) = ok (tt, ts)

abbrev pub tokens : Protocol Token ℕ
unfolding take_begin take_end take_field take_field_end take_list take_list_end take_map
    take_map_end take_message take_message_end take_bool take_int take_double take_string skip_token
tokens = record {
  read_struct_begin = one take_begin;
  read_struct_end = one take_end;
  read_field_begin = one take_field;
  read_field_end = one take_field_end;
  read_list_begin = one take_list;
  read_list_end = one take_list_end;
  read_map_begin = one take_map;
  read_map_end = one take_map_end;
  read_message_begin = one take_message;
  read_message_end = one take_message_end;
  read_bool = one take_bool;
  read_i16 = one (take_int 15);
  read_i32 = one (take_int 31);
  read_i64 = one (take_int 63);
  read_double = one take_double;
  read_string = one take_string;
  skip = skip_token;
  write_struct_begin = λ name. begin ∷ [];
  write_struct_end = end ∷ [];
  write_field_begin = λ name t id. field t id ∷ [];
  write_field_end = field_end ∷ [];
  write_field_stop = field t_stop (pos 0) ∷ [];
  write_list_begin = λ t n. list t n ∷ [];
  write_list_end = list_end ∷ [];
  write_map_begin = λ k v n. map k v n ∷ [];
  write_map_end = map_end ∷ [];
  write_message_begin = λ name t id. message name t id ∷ [];
  write_message_end = message_end ∷ [];
  write_bool = λ b. bool b ∷ [];
  write_i16 = λ z. int z ∷ [];
  write_i32 = λ z. int z ∷ [];
  write_i64 = λ z. int z ∷ [];
  write_double = λ d. double d ∷ [];
  write_string = λ t. string t ∷ [];
}

take_int_lem :
    (w : ℕ) (z : ℤ) (ts : List Token) → IsSigned w z → one (take_int w) (int z ∷ ts) ≡ ok (z, ts)
unfolding take_int
take_int_lem w (pos n) ts h = ground arith
take_int_lem w (negsuc n) ts h = ground arith

take_list_lem :
    (t : TType) (n : ℕ) (ts : List Token)
    → n < 2 ^ 32
    → one take_list (list t n ∷ ts) ≡ ok ((t, n), ts)
unfolding take_list
take_list_lem t n ts h = ground arith

take_map_lem :
    (k v : TType) (n : ℕ) (ts : List Token)
    → n < 2 ^ 32
    → one take_map (map k v n ∷ ts) ≡ ok ((k, v, n), ts)
unfolding take_map
take_map_lem k v n ts h = ground arith

pub tokens-Laws : Laws tokens
unfolding tokens take_begin take_end take_field take_field_end take_list take_list_end take_map
    take_map_end take_message take_message_end take_bool take_int take_double take_string
tokens-Laws = record {
  struct_begin = λ name. record { run = λ rest. refl };
  struct_end = record { run = λ rest. refl };
  field_begin = λ name t id. record { run = λ rest. refl };
  field_end = record { run = λ rest. refl };
  field_stop = record { run = λ rest. refl };
  list_begin = λ t n h. record { run = λ rest. take_list_lem t n rest h };
  list_end = record { run = λ rest. refl };
  map_begin = λ k v n h. record { run = λ rest. take_map_lem k v n rest h };
  map_end = record { run = λ rest. refl };
  message_begin = λ name t id h. record { run = λ rest. refl };
  message_end = record { run = λ rest. refl };
  bool = λ b. record { run = λ rest. refl };
  i16 = λ z h. record { run = λ rest. take_int_lem 15 z rest h };
  i32 = λ z h. record { run = λ rest. take_int_lem 31 z rest h };
  i64 = λ z h. record { run = λ rest. take_int_lem 63 z rest h };
  double = λ d. record { run = λ rest. refl };
  string = λ t. record { run = λ rest. refl };
}

-- A structure without fields is skipped.
pub tokens-skip : Reads (tokens.skip t_struct) (begin ∷ end ∷ []) tt
unfolding tokens skip_token skip_struct
tokens-skip = record { run = λ rest. refl }

pub tokens-skip_int : Reads (tokens.skip t_i32) (int (pos 1) ∷ []) tt
unfolding tokens skip_token
tokens-skip_int = record { run = λ rest. refl }
