-- ===== src/MicroService/Remote/Add.antt =====
-- `AddServiceClient` and `AddServiceProcessor` together (micro_service/gen-cpp/AddService.cpp).
use dag_executor.Common.{ℕ, suc, ◌≡◌, refl, true, false, List, ◌++◌, arith, if◌then◌else◌}
use dag_executor.Common.Int.{ℤ, pos}
use dag_executor.Util.{Text}
use dag_executor.Wire.Result.{ok, err, unknown, missing_result, unknown_method, application, ◌>>=◌}
use dag_executor.Wire.Protocol.{t_call, t_reply, t_struct, Protocol, IsI32}
use dag_executor.Wire.Reads.{Reads, Laws, Reads-return}
use dag_executor.Wire.Throws.{Throws-throw}
use dag_executor.MicroService.Rpc.{send, Exceptions, Handled, put_message, answer, invalid_method}
use dag_executor.MicroService.Calls.{
  ExceptionLaws, Reads-served, Reads-recv, Throws-recv, Throws-reply, Reads-unknown, Reads-astray,
}
use dag_executor.MicroService.Remote.Outcome.{outcome}
use dag_executor.MicroService.Add.{
  AddArgs, read_add_args, new_add_args, write_add_args, AddResult, read_add_result,
  write_add_result, add_name, is_add, add_failed, send_add, recv_add, finish_add, process_add,
  dispatch_add,
}
use dag_executor.MicroService.Remote.AddReads.{
  pargs-Reads, result-Reads, missing-Reads, args-Reads, result_round,
}

-- The handler of the C++ type returns an `int32_t`.
abbrev pub ReturnsI32 : Handled ℤ → Type 0
ReturnsI32 (Handled.returned r) = IsI32 r
ReturnsI32 (Handled.thrown what) = Unit

module _ {ℓ} {B : Type ℓ} {D : Type 0} (p : Protocol B D) (laws : Laws p) where
  -- Over a protocol that reads back what it writes, the classes of the method's arguments and of its
  -- result are read as they were written: the arguments with both flags set, the result with its
  -- flag, and when no result was set the reading object stays as it was.
  pub add-classes-round :
      (a old : AddArgs) (r before : AddResult) (fuel : ℕ) (rest : List B)
      → IsI32 a.num1
      → IsI32 a.num2
      → IsI32 r.success
      → (read_add_args p (suc (suc (suc fuel))) old (write_add_args p a ++ rest)
          ≡ ok (record a { isset_num1 = true; isset_num2 = true }, rest))
        × (read_add_result p (suc (suc fuel)) before (write_add_result p r ++ rest)
            ≡ ok (if r.isset_success then r else before, rest))
  add-classes-round a old r before fuel rest h k l = (
    (args-Reads laws fuel old a h k).run rest,
    result_round laws r.isset_success r.success before fuel rest l,
  )

module _ {ℓ} {B : Type ℓ} {D : Type 0} (p : Protocol B D) (x : Exceptions B) (laws : Laws p)
    (xlaws : ExceptionLaws x) where
  recv_answer :
      (h : Handled ℤ) (fuel : ℕ) (memory : ℤ) (rest : List B)
      → ReturnsI32 h
      → recv_add p x (suc (suc fuel)) memory (
          answer p x add_name
            (pos 0)
            (λ v. write_add_result p (record { success = v; isset_success = true }))
            h
          ++ rest)
        ≡ outcome h rest
  unfolding recv_add answer finish_add
  recv_answer (Handled.returned r) fuel memory rest k =
      (Reads-recv laws x is_add add_name (pos 0) (finish_add p x) (omega arith) refl
          (result-Reads laws fuel _ r k) (Reads-return r)).run
        rest
  recv_answer (Handled.thrown what) fuel memory rest k =
      (Throws-recv laws x xlaws is_add _ _ add_name (pos 0) unknown what (omega arith)).run rest

  -- A call over the wire is a call of the handler: for arguments and a result in the range of
  -- `int32_t`, the processor reads from what `send_add` has written just that message, calls the
  -- handler once with those arguments, and writes an answer from which `recv_add` returns the
  -- handler's result; if the handler threw, `recv_add` throws a `TApplicationException` of type
  -- UNKNOWN with its `what()`. Neither side reads beyond its message.
  pub add-remote {κ} :
      {S : Type κ} (add : S → ℤ → ℤ → Handled ℤ × S) (s : S) (a b memory : ℤ) (fuel : ℕ)
      (rest others : List B)
      → IsI32 a
      → IsI32 b
      → ReturnsI32 ((add s a b).0)
      → (reply : List B) × ((p.read_message_begin >>= λ h.
              dispatch_add p x add (suc (suc (suc fuel))) s (h.0) (h.2))
            (send_add p a b ++ rest)
          ≡ ok ((reply, (add s a b).1), rest))
        × (recv_add p x (suc (suc fuel)) memory (reply ++ others) ≡ outcome ((add s a b).0) others)
  unfolding send send_add dispatch_add process_add
  add-remote add s a b memory fuel rest others h k r = (
    _,
    (Reads-served laws x is_add add_name _ _ invalid_method s (pos 0) (omega arith) refl
          (pargs-Reads laws fuel new_add_args a b h k)).run
        rest,
    recv_answer ((add s a b).0) fuel memory others r,
  )

  -- A call of any other method, whatever its arguments and its number, is skipped by the processor:
  -- the handler is not called, and the answer is a `TApplicationException` of type UNKNOWN_METHOD
  -- that names the method, which `recv_add` throws. The condition is that the protocol skips the
  -- arguments that were written.
  pub add-unknown {κ} :
      {S : Type κ} (add : S → ℤ → ℤ → Handled ℤ × S) (s : S) (name : Text) (id memory : ℤ)
      (args : List B) (fuel : ℕ) (rest others : List B)
      → is_add name ≡ false
      → IsI32 id
      → Reads (p.skip t_struct) args tt
      → (reply : List B) × ((p.read_message_begin >>= λ h. dispatch_add p x add fuel s (h.0) (h.2))
            (put_message p name t_call id args ++ rest)
          ≡ ok ((reply, s), rest))
        × (recv_add p x fuel memory (reply ++ others)
            ≡ err (application unknown_method (invalid_method name)))
  unfolding dispatch_add recv_add
  add-unknown add s name id memory args fuel rest others is_other h r = (
    _,
    (Reads-unknown laws x is_add _ invalid_method s name t_call id h is_other r).run rest,
    (Throws-recv laws x xlaws is_add _ _ name id unknown_method _ h).run others,
  )

  -- A reply without a result makes `recv_add` throw a `TApplicationException` of type
  -- MISSING_RESULT; what the uninitialised `_return` held does not get out.
  pub recv_add-missing :
      (id memory success : ℤ) (fuel : ℕ) (rest : List B)
      → IsI32 id
      → recv_add p x (suc fuel) memory (
          put_message p add_name t_reply id
            (write_add_result p (record { success = success; isset_success = false }))
          ++ rest)
        ≡ err (application missing_result add_failed)
  unfolding recv_add finish_add
  recv_add-missing id memory success fuel rest h =
      (Throws-reply laws x is_add add_name id _ h refl (missing-Reads laws fuel _ success)
          (Throws-throw _)).run
        rest

  -- A reply that names another method is not refused: `recv_add` skips it and takes the bytes that
  -- follow for its result, though they do not begin with a message, and returns a result from there.
  pub recv_add-astray :
      (name : Text) (id memory r : ℤ) (body : List B) (fuel : ℕ) (rest : List B)
      → is_add name ≡ false
      → IsI32 id
      → IsI32 r
      → Reads (p.skip t_struct) body tt
      → recv_add p x (suc (suc fuel)) memory (
          (put_message p name t_reply id body
            ++ (write_add_result p (record { success = r; isset_success = true })
                ++ p.write_message_end))
          ++ rest)
        ≡ ok (r, rest)
  unfolding recv_add finish_add
  recv_add-astray name id memory r body fuel rest is_other h k skipped =
      (Reads-astray laws x is_add name id (finish_add p x) h is_other skipped
          (result-Reads laws fuel _ r k) (Reads-return r)).run
        rest
