-- ===== src/MicroService/Add.antt =====
-- The service with the method `add` (micro_service/gen-cpp/AddService.h and AddService.cpp).
use dag_executor.Common.{ℕ, List, [], ◌∷◌, Bool, true, false, if◌then◌else◌, eqb_list}
use dag_executor.Common.Int.{ℤ, pos, eqb_ℤ}
use dag_executor.Util.{Text}
use dag_executor.Wire.Result.{missing_result, application, M, return, throw, ◌>>=◌}
use dag_executor.Wire.Protocol.{TType, t_i32, Protocol}
use dag_executor.Wire.Struct.{typed, unknown_field, read_struct, put_field, write_struct}
use dag_executor.MicroService.Rpc.{
  Exceptions, Handled, send, recv, process, dispatch, invalid_method,
}

-- `class AddService_add_args`, its flags in `__isset` included
pub record AddArgs : Type 0 where
  pub num1 : ℤ
  pub num2 : ℤ
  pub isset_num1 : Bool
  pub isset_num2 : Bool

-- `AddService_add_args::AddService_add_args`
abbrev pub new_add_args : AddArgs
new_add_args = record { num1 = pos 0; num2 = pos 0; isset_num1 = false; isset_num2 = false }

-- `class AddService_add_result`; for `AddService_add_presult`, `success` is what the pointer of
-- that name points to.
pub record AddResult : Type 0 where
  pub success : ℤ
  pub isset_success : Bool

-- "add"
abbrev pub add_name : Text
add_name = b'a' ∷ b'd' ∷ b'd' ∷ []

-- `processMap_.find(fname)` finds an entry, `fname.compare("add") == 0`
abbrev pub is_add : Text → Bool
is_add name = eqb_list name add_name

-- "add failed: unknown result"
abbrev pub add_failed : Text
add_failed =
    b'a' ∷ b'd' ∷ b'd' ∷ b' ' ∷ b'f' ∷ b'a' ∷ b'i' ∷ b'l' ∷ b'e' ∷ b'd' ∷ b':' ∷ b' ' ∷ b'u' ∷ b'n'
    ∷ b'k' ∷ b'n' ∷ b'o' ∷ b'w' ∷ b'n' ∷ b' ' ∷ b'r' ∷ b'e' ∷ b's' ∷ b'u' ∷ b'l' ∷ b't' ∷ []

module _ {ℓ} {B : Type ℓ} {D : Type 0} (p : Protocol B D) where
  -- the switch of `AddService_add_args::read`
  unfoldable pub add_args_field : AddArgs → TType → ℤ → M B AddArgs
  add_args_field s t id =
      if eqb_ℤ id (pos 1)
      then typed p t_i32 (p.read_i32 >>= λ v. return (record s { num1 = v; isset_num1 = true })) s t
      else if eqb_ℤ id (pos 2)
      then typed p t_i32 (p.read_i32 >>= λ v. return (record s { num2 = v; isset_num2 = true })) s t
      else unknown_field p s t

  -- `AddService_add_args::read`
  unfoldable pub read_add_args : ℕ → AddArgs → M B AddArgs
  unfolding add_args_field
  read_add_args fuel old = read_struct p add_args_field return fuel old

  -- `AddService_add_args::write`
  unfoldable pub write_add_args : AddArgs → List B
  write_add_args a = write_struct p "AddService_add_args" (
      put_field p "num1" t_i32 (pos 1) (p.write_i32 a.num1)
      ∷ put_field p "num2" t_i32 (pos 2) (p.write_i32 a.num2)
      ∷ [])

  -- `AddService_add_pargs::write`, with what its two pointers point to
  unfoldable pub write_add_pargs : ℤ → ℤ → List B
  write_add_pargs num1 num2 = write_struct p "AddService_add_pargs" (
      put_field p "num1" t_i32 (pos 1) (p.write_i32 num1)
      ∷ put_field p "num2" t_i32 (pos 2) (p.write_i32 num2)
      ∷ [])

  -- the switch of `AddService_add_result::read`
  unfoldable pub add_result_field : AddResult → TType → ℤ → M B AddResult
  add_result_field s t id =
      if eqb_ℤ id (pos 0)
      then typed p t_i32
          (p.read_i32 >>= λ v. return (record s { success = v; isset_success = true })) s t
      else unknown_field p s t

  -- `AddService_add_result::read`
  unfoldable pub read_add_result : ℕ → AddResult → M B AddResult
  unfolding add_result_field
  read_add_result fuel old = read_struct p add_result_field return fuel old

  -- the switch of `AddService_add_presult::read`
  unfoldable pub add_presult_field : AddResult → TType → ℤ → M B AddResult
  add_presult_field s t id =
      if eqb_ℤ id (pos 0)
      then typed p t_i32
          (p.read_i32 >>= λ v. return (record s { success = v; isset_success = true })) s t
      else unknown_field p s t

  -- `AddService_add_presult::read`
  unfoldable pub read_add_presult : ℕ → AddResult → M B AddResult
  unfolding add_presult_field
  read_add_presult fuel old = read_struct p add_presult_field return fuel old

  -- `AddService_add_result::write`
  unfoldable pub write_add_result : AddResult → List B
  write_add_result r = write_struct p "AddService_add_result" (
      if r.isset_success
      then put_field p "success" t_i32 (pos 0) (p.write_i32 r.success) ∷ []
      else [])

  -- `AddServiceClient::send_add`
  unfoldable pub send_add : ℤ → ℤ → List B
  unfolding write_add_pargs
  send_add num1 num2 = send p add_name (write_add_pargs num1 num2)

  module _ (x : Exceptions B) where
    -- The end of `recv_add`.
    unfoldable pub finish_add : AddResult → M B ℤ
    finish_add r =
        if r.isset_success then return r.success else throw (application missing_result add_failed)

    -- `AddServiceClient::recv_add`; `memory` is what the uninitialised `_return` holds.
    unfoldable pub recv_add : ℕ → ℤ → M B ℤ
    unfolding read_add_presult finish_add
    recv_add fuel memory =
        recv p x is_add (read_add_presult fuel (record { success = memory; isset_success = false }))
          finish_add

    module _ {κ} {S : Type κ} (add : S → ℤ → ℤ → Handled ℤ × S) where
      -- `AddServiceProcessor::process_add`; `add` is the handler `iface_`.
      unfoldable pub process_add : ℕ → S → ℤ → M B (List B × S)
      unfolding read_add_args write_add_result
      process_add fuel s id =
          process p x add_name (read_add_args fuel new_add_args)
            (λ v. write_add_result (record { success = v; isset_success = true }))
            (λ s a. add s a.num1 a.num2) s id

      -- `AddServiceProcessor::dispatchCall`
      unfoldable pub dispatch_add : ℕ → S → Text → ℤ → M B (List B × S)
      unfolding process_add
      dispatch_add fuel = dispatch p x is_add (process_add fuel) invalid_method
