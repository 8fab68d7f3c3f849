-- ===== src/MicroService/Remote/Put.antt =====
-- `ServClient` and `ServProcessor` together, and `Student` (micro_service/test/gen-cpp/Serv.cpp and
-- student_types.cpp).
use dag_executor.Common.{ℕ, suc, ◌≡◌, refl, true, List, ◌++◌, arith}
use dag_executor.Common.Int.{pos}
use dag_executor.Wire.Result.{ok, unknown, return, ◌>>=◌}
use dag_executor.Wire.Protocol.{Protocol, IsI16, IsI32}
use dag_executor.Wire.Reads.{
  Reads, Laws, Reads-return, Reads-map, Reads-stop, Reads-round, Reads-struct,
}
use dag_executor.MicroService.Rpc.{send, Exceptions, Handled, answer, invalid_method}
use dag_executor.MicroService.Calls.{ExceptionLaws, Reads-served, Reads-recv, Throws-recv}
use dag_executor.MicroService.Remote.Outcome.{outcome}
use dag_executor.MicroService.Student.{
  Student, student_field, read_student, write_student, PutArgs, new_put_args, put_args_field,
  read_put_args, write_put_args, write_put_pargs, read_put_result, read_put_presult,
  write_put_result, put_name, is_put, send_put, recv_put, process_put, dispatch_put,
}

-- The numbers are in the range of their C++ types.
abbrev pub FitsStudent : Student → Type 0
FitsStudent s = IsI32 s.sno × IsI16 s.sage

-- What arrives has all flags set, since `write` writes every field.
abbrev pub received_student : Student → Student
received_student s = record s {
  isset_sno = true;
  isset_sname = true;
  isset_ssex = true;
  isset_sage = true;
}

module _ {ℓ} {B : Type ℓ} {D : Type 0} {p : Protocol B D} (laws : Laws p) where
  student-Reads :
      (fuel : ℕ) (old s : Student)
      → FitsStudent s
      → Reads
          (read_student p (suc (suc (suc (suc (suc fuel))))) old)
          (write_student p s)
          (received_student s)
  unfolding read_student write_student student_field
  student-Reads fuel old s h =
      Reads-struct laws (student_field p) _ _ _ _ _
        (Reads-round laws _ _ _ _ refl (Reads-map _ (laws.i32 _ (h.0))) (
          Reads-round laws _ _ _ _ refl (Reads-map _ (laws.string _)) (
            Reads-round laws _ _ _ _ refl (Reads-map _ (laws.bool _)) (
              Reads-round laws _ _ _ _ refl (Reads-map _ (laws.i16 _ (h.1)))
                (Reads-stop laws _ _ _)))))
        (Reads-return _)

  pargs-Reads :
      (fuel : ℕ) (old : PutArgs) (s : Student)
      → FitsStudent s
      → Reads
          (read_put_args p (suc (suc (suc (suc (suc fuel))))) old)
          (write_put_pargs p s)
          (record { s = received_student s; isset_s = true })
  unfolding read_put_args write_put_pargs put_args_field
  pargs-Reads fuel old s h =
      Reads-struct laws (put_args_field p _) _ _ _ _ _
        (Reads-round laws _ _ _ _ refl (Reads-map _ (student-Reads fuel _ s h))
          (Reads-stop laws _ _ _))
        (Reads-return _)

  presult-Reads : (fuel : ℕ) → Reads (read_put_presult p (suc fuel)) (write_put_result p) tt
  unfolding read_put_presult write_put_result
  presult-Reads fuel = Reads-struct laws _ _ _ _ _ _ (Reads-stop laws _ _ _) (Reads-return _)

  put_args-Reads :
      (fuel : ℕ) (old a : PutArgs)
      → FitsStudent a.s
      → Reads
          (read_put_args p (suc (suc (suc (suc (suc fuel))))) old)
          (write_put_args p a)
          (record { s = received_student a.s; isset_s = true })
  unfolding read_put_args write_put_args put_args_field
  put_args-Reads fuel old a h =
      Reads-struct laws (put_args_field p _) _ _ _ _ _
        (Reads-round laws _ _ _ _ refl (Reads-map _ (student-Reads fuel _ a.s h))
          (Reads-stop laws _ _ _))
        (Reads-return _)

  put_result-Reads : (fuel : ℕ) → Reads (read_put_result p (suc fuel)) (write_put_result p) tt
  unfolding read_put_result write_put_result
  put_result-Reads fuel = Reads-struct laws _ _ _ _ _ _ (Reads-stop laws _ _ _) (Reads-return _)

module _ {ℓ} {B : Type ℓ} {D : Type 0} (p : Protocol B D) (laws : Laws p) where
  -- `Student::read` gets from what `write` has written the student that was written, with all flags
  -- set, whatever the reading object held before; it leaves what follows unread. The numbers are
  -- within the ranges of their types, and its loop makes five rounds.
  pub read_student-write_student :
      (s old : Student) (fuel : ℕ) (rest : List B)
      → FitsStudent s
      → read_student p (suc (suc (suc (suc (suc fuel))))) old (write_student p s ++ rest)
        ≡ ok (received_student s, rest)
  read_student-write_student s old fuel rest h = (student-Reads laws fuel old s h).run rest

  -- Over such a protocol, the class of the method's arguments is read as it was written, with the
  -- flags of the student and its own set, and its empty result is read as it was written. The
  -- student's numbers are within their types.
  pub put-classes-round :
      (a old : PutArgs) (fuel : ℕ) (rest : List B)
      → FitsStudent a.s
      → (read_put_args p (suc (suc (suc (suc (suc fuel))))) old (write_put_args p a ++ rest)
          ≡ ok (record { s = received_student a.s; isset_s = true }, rest))
        × (read_put_result p (suc fuel) (write_put_result p ++ rest) ≡ ok (tt, rest))
  put-classes-round a old fuel rest h =
      ((put_args-Reads laws fuel old a h).run rest, (put_result-Reads laws fuel).run rest)

module _ {ℓ} {B : Type ℓ} {D : Type 0} (p : Protocol B D) (x : Exceptions B) (laws : Laws p)
    (xlaws : ExceptionLaws x) where
  recv_answer :
      (h : Handled (Unit {0})) (fuel : ℕ) (rest : List B)
      → recv_put p x (suc fuel) (answer p x put_name (pos 0) (λ v. write_put_result p) h ++ rest)
        ≡ outcome h rest
  unfolding recv_put answer
  recv_answer (Handled.returned tt) fuel rest =
      (Reads-recv laws x is_put put_name (pos 0) return (omega arith) refl (presult-Reads laws fuel)
          (Reads-return tt)).run
        rest
  recv_answer (Handled.thrown what) fuel rest =
      (Throws-recv laws x xlaws is_put _ _ put_name (pos 0) unknown what (omega arith)).run rest

  -- A call of `put` over the wire is a call of the handler with the student, its flags set: the
  -- processor reads just the message of `send_put`, calls the handler once and writes an answer at
  -- which `recv_put` returns if the handler returned, and throws a `TApplicationException` of type
  -- UNKNOWN with the `what()` of what it threw. The student's numbers are within their types.
  pub put-remote {κ} :
      {S : Type κ} (put : S → Student → Handled (Unit {0}) × S) (state : S) (s : Student) (fuel : ℕ)
      (rest others : List B)
      → FitsStudent s
      → (reply : List B) × ((p.read_message_begin >>= λ h.
              dispatch_put p x put (suc (suc (suc (suc (suc fuel))))) state (h.0) (h.2))
            (send_put p s ++ rest)
          ≡ ok ((reply, (put state (received_student s)).1), rest))
        × (recv_put p x (suc fuel) (reply ++ others)
            ≡ outcome ((put state (received_student s)).0) others)
  unfolding send send_put dispatch_put process_put
  put-remote put state s fuel rest others h = (
    _,
    (Reads-served laws x is_put put_name _ _ invalid_method state (pos 0) (omega arith) refl
          (pargs-Reads laws fuel new_put_args s h)).run
        rest,
    recv_answer ((put state (received_student s)).0) fuel others,
  )
