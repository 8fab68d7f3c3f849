-- ===== src/MicroService/Student.antt =====
-- The service with the method `put` (micro_service/test/gen-cpp/student_types.h,
-- student_types.cpp, Serv.h and Serv.cpp).
use dag_executor.Common.{ℕ, List, [], ◌∷◌, Bool, true, false, if◌then◌else◌, eqb_list}
use dag_executor.Common.Int.{ℤ, pos, eqb_ℤ}
use dag_executor.Util.{Text}
use dag_executor.Wire.Result.{M, return, ◌>>=◌}
use dag_executor.Wire.Protocol.{TType, t_bool, t_i16, t_i32, t_string, t_struct, Protocol}
use dag_executor.Wire.Struct.{typed, unknown_field, read_struct, put_field, write_struct}
use dag_executor.MicroService.Rpc.{
  Exceptions, Handled, send, recv, process, dispatch, invalid_method,
}

-- `class Student`, its flags in `__isset` included
pub record Student : Type 0 where
  pub sno : ℤ
  pub sname : Text
  pub ssex : Bool
  pub sage : ℤ
  pub isset_sno : Bool
  pub isset_sname : Bool
  pub isset_ssex : Bool
  pub isset_sage : Bool

-- `Student::Student`
abbrev pub new_student : Student
new_student = record {
  sno = pos 0;
  sname = [];
  ssex = false;
  sage = pos 0;
  isset_sno = false;
  isset_sname = false;
  isset_ssex = false;
  isset_sage = false;
}

-- `class Serv_put_args`
pub record PutArgs : Type 0 where
  pub s : Student
  pub isset_s : Bool

-- `Serv_put_args::Serv_put_args`
abbrev pub new_put_args : PutArgs
new_put_args = record { s = new_student; isset_s = false }

-- "put"
abbrev pub put_name : Text
put_name = b'p' ∷ b'u' ∷ b't' ∷ []

-- `processMap_.find(fname)` finds an entry, `fname.compare("put") == 0`
abbrev pub is_put : Text → Bool
is_put name = eqb_list name put_name

module _ {ℓ} {B : Type ℓ} {D : Type 0} (p : Protocol B D) where
  -- the switch of `Student::read`
  unfoldable pub student_field : Student → TType → ℤ → M B Student
  student_field s t id =
      if eqb_ℤ id (pos 1)
      then typed p t_i32 (p.read_i32 >>= λ v. return (record s { sno = v; isset_sno = true })) s t
      else if eqb_ℤ id (pos 2)
      then typed p t_string
          (p.read_string >>= λ v. return (record s { sname = v; isset_sname = true })) s t
      else if eqb_ℤ id (pos 3)
      then typed p t_bool (p.read_bool >>= λ v. return (record s { ssex = v; isset_ssex = true })) s
          t
      else if eqb_ℤ id (pos 4)
      then typed p t_i16 (p.read_i16 >>= λ v. return (record s { sage = v; isset_sage = true })) s t
      else unknown_field p s t

  -- `Student::read` into an object that holds `old`
  unfoldable pub read_student : ℕ → Student → M B Student
  unfolding student_field
  read_student fuel old = read_struct p student_field return fuel old

  -- `Student::write`
  unfoldable pub write_student : Student → List B
  write_student x = write_struct p "Student" (
      put_field p "sno" t_i32 (pos 1) (p.write_i32 x.sno)
      ∷ put_field p "sname" t_string (pos 2) (p.write_string x.sname)
      ∷ put_field p "ssex" t_bool (pos 3) (p.write_bool x.ssex)
      ∷ put_field p "sage" t_i16 (pos 4) (p.write_i16 x.sage)
      ∷ [])

  -- the switch of `Serv_put_args::read`
  unfoldable pub put_args_field : ℕ → PutArgs → TType → ℤ → M B PutArgs
  put_args_field fuel a t id =
      if eqb_ℤ id (pos 1)
      then typed p t_struct
          (read_student fuel a.s >>= λ v. return (record a { s = v; isset_s = true })) a t
      else unknown_field p a t

  -- `Serv_put_args::read`
  unfoldable pub read_put_args : ℕ → PutArgs → M B PutArgs
  unfolding put_args_field
  read_put_args fuel old = read_struct p (put_args_field fuel) return fuel old

  -- `Serv_put_args::write`
  unfoldable pub write_put_args : PutArgs → List B
  write_put_args a =
      write_struct p "Serv_put_args" (put_field p "s" t_struct (pos 1) (write_student a.s) ∷ [])

  -- `Serv_put_pargs::write`, with what its pointer points to
  unfoldable pub write_put_pargs : Student → List B
  write_put_pargs s =
      write_struct p "Serv_put_pargs" (put_field p "s" t_struct (pos 1) (write_student s) ∷ [])

  -- `Serv_put_result::read`: every field is skipped.
  unfoldable pub read_put_result : ℕ → M B (Unit {0})
  read_put_result fuel = read_struct p (λ s t id. unknown_field p s t) return fuel tt

  -- `Serv_put_presult::read`
  unfoldable pub read_put_presult : ℕ → M B (Unit {0})
  read_put_presult fuel = read_struct p (λ s t id. unknown_field p s t) return fuel tt

  -- `Serv_put_result::write`
  unfoldable pub write_put_result : List B
  write_put_result = write_struct p "Serv_put_result" []

  -- `ServClient::send_put`
  unfoldable pub send_put : Student → List B
  unfolding write_put_pargs
  send_put s = send p put_name (write_put_pargs s)

  module _ (x : Exceptions B) where
    -- `ServClient::recv_put`
    unfoldable pub recv_put : ℕ → M B (Unit {0})
    unfolding read_put_presult
    recv_put fuel = recv p x is_put (read_put_presult fuel) return

    module _ {κ} {S : Type κ} (put : S → Student → Handled (Unit {0}) × S) where
      -- `ServProcessor::process_put`; `put` is the handler `iface_`.
      unfoldable pub process_put : ℕ → S → ℤ → M B (List B × S)
      unfolding read_put_args write_put_result
      process_put fuel s id =
          process p x put_name (read_put_args fuel new_put_args) (λ v. write_put_result)
            (λ s a. put s a.s) s id

      -- `ServProcessor::dispatchCall`
      unfoldable pub dispatch_put : ℕ → S → Text → ℤ → M B (List B × S)
      unfolding process_put
      dispatch_put fuel = dispatch p x is_put (process_put fuel) invalid_method
