-- ===== src/Wire/Protocol.antt =====
-- `TProtocol`: its operations, on bytes of a type `B` and with a type `D` for `double`. What the
-- calls count, the bytes read and written, is left out, and a write is taken not to fail.
use Prim.Native.String.{String}
use dag_executor.Common.{ℕ, ◌<◌, ◌^◌, Bool, List, ◌==◌}
use dag_executor.Common.Int.{ℤ, pos, negsuc}
use dag_executor.Util.{Text}
use dag_executor.Wire.Result.{M}

-- The types of `TType` that the code names, and the rest.
pub data TType : Type 0 where
  t_stop t_bool t_double t_i16 t_i32 t_i64 t_string t_struct t_map t_list t_other : TType

abbrev number : TType → ℕ
number t_stop = 0
number t_bool = 1
number t_double = 2
number t_i16 = 3
number t_i32 = 4
number t_i64 = 5
number t_string = 6
number t_struct = 7
number t_map = 8
number t_list = 9
number t_other = 10

-- `ftype == T_…`
abbrev pub same_type : TType → TType → Bool
same_type a b = number a == number b

-- `TMessageType`, as far as the code names it.
pub data MessageType : Type 0 where
  t_call t_reply t_exception t_oneway : MessageType

pub record Protocol {ℓ} (B : Type ℓ) (D : Type 0) : Type ℓ where
  pub read_struct_begin : M B (Unit {0})
  pub read_struct_end : M B (Unit {0})
  pub read_field_begin : M B (TType × ℤ)
  pub read_field_end : M B (Unit {0})
  pub read_list_begin : M B (TType × ℕ)
  pub read_list_end : M B (Unit {0})
  pub read_map_begin : M B (TType × TType × ℕ)
  pub read_map_end : M B (Unit {0})
  pub read_message_begin : M B (Text × MessageType × ℤ)
  pub read_message_end : M B (Unit {0})
  pub read_bool : M B Bool
  pub read_i16 : M B ℤ
  pub read_i32 : M B ℤ
  pub read_i64 : M B ℤ
  pub read_double : M B D
  pub read_string : M B Text
  pub skip : TType → M B (Unit {0})
  pub write_struct_begin : String → List B
  pub write_struct_end : List B
  pub write_field_begin : String → TType → ℤ → List B
  pub write_field_end : List B
  pub write_field_stop : List B
  pub write_list_begin : TType → ℕ → List B
  pub write_list_end : List B
  pub write_map_begin : TType → TType → ℕ → List B
  pub write_map_end : List B
  pub write_message_begin : Text → MessageType → ℤ → List B
  pub write_message_end : List B
  pub write_bool : Bool → List B
  pub write_i16 : ℤ → List B
  pub write_i32 : ℤ → List B
  pub write_i64 : ℤ → List B
  pub write_double : D → List B
  pub write_string : Text → List B

-- The value fits a signed integer of `w + 1` bits.
abbrev pub IsSigned : ℕ → ℤ → Type 0
IsSigned w (pos n) = n < 2 ^ w
IsSigned w (negsuc n) = n < 2 ^ w

abbrev pub IsI16 : ℤ → Type 0
IsI16 z = IsSigned 15 z

abbrev pub IsI32 : ℤ → Type 0
IsI32 z = IsSigned 31 z

abbrev pub IsI64 : ℤ → Type 0
IsI64 z = IsSigned 63 z
