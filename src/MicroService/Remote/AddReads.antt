-- ===== src/MicroService/Remote/AddReads.antt =====
-- Round trips of the arguments and the result of `add` (micro_service/gen-cpp/AddService.cpp).
use dag_executor.Common.{ℕ, suc, ◌≡◌, refl, Bool, true, false, List, ◌++◌, if◌then◌else◌}
use dag_executor.Common.Int.{ℤ}
use dag_executor.Wire.Result.{ok}
use dag_executor.Wire.Protocol.{Protocol, IsI32}
use dag_executor.Wire.Reads.{
  Reads, Laws, Reads-return, Reads-map, Reads-stop, Reads-round, Reads-struct,
}
use dag_executor.MicroService.Add.{
  AddArgs, add_args_field, read_add_args, write_add_args, write_add_pargs, AddResult,
  add_result_field, read_add_result, add_presult_field, read_add_presult, write_add_result,
}

module _ {ℓ} {B : Type ℓ} {D : Type 0} {p : Protocol B D} (laws : Laws p) where
  pub pargs-Reads :
      (fuel : ℕ) (old : AddArgs) (a b : ℤ)
      → IsI32 a
      → IsI32 b
      → Reads
          (read_add_args p (suc (suc (suc fuel))) old)
          (write_add_pargs p a b)
          (record { num1 = a; num2 = b; isset_num1 = true; isset_num2 = true })
  unfolding read_add_args write_add_pargs add_args_field
  pargs-Reads fuel old a b h k =
      Reads-struct laws (add_args_field p) _ _ _ _ _
        (Reads-round laws _ _ _ _ refl (Reads-map _ (laws.i32 _ h))
          (Reads-round laws _ _ _ _ refl (Reads-map _ (laws.i32 _ k)) (Reads-stop laws _ _ _)))
        (Reads-return _)

  pub result-Reads :
      (fuel : ℕ) (old : AddResult) (r : ℤ)
      → IsI32 r
      → Reads
          (read_add_presult p (suc (suc fuel)) old)
          (write_add_result p (record { success = r; isset_success = true }))
          (record { success = r; isset_success = true })
  unfolding read_add_presult write_add_result add_presult_field
  result-Reads fuel old r h =
      Reads-struct laws (add_presult_field p) _ _ _ _ _
        (Reads-round laws _ _ _ _ refl (Reads-map _ (laws.i32 _ h)) (Reads-stop laws _ _ _))
        (Reads-return _)

  pub missing-Reads :
      (fuel : ℕ) (old : AddResult) (success : ℤ)
      → Reads
          (read_add_presult p (suc fuel) old)
          (write_add_result p (record { success = success; isset_success = false }))
          old
  unfolding read_add_presult write_add_result
  missing-Reads fuel old success =
      Reads-struct laws (add_presult_field p) _ _ _ _ _ (Reads-stop laws _ _ _) (Reads-return _)

  pub args-Reads :
      (fuel : ℕ) (old a : AddArgs)
      → IsI32 a.num1
      → IsI32 a.num2
      → Reads
          (read_add_args p (suc (suc (suc fuel))) old)
          (write_add_args p a)
          (record a { isset_num1 = true; isset_num2 = true })
  unfolding read_add_args write_add_args add_args_field
  args-Reads fuel old a h k =
      Reads-struct laws (add_args_field p) _ _ _ _ _
        (Reads-round laws _ _ _ _ refl (Reads-map _ (laws.i32 _ h))
          (Reads-round laws _ _ _ _ refl (Reads-map _ (laws.i32 _ k)) (Reads-stop laws _ _ _)))
        (Reads-return _)

  full-Reads :
      (fuel : ℕ) (old : AddResult) (r : ℤ)
      → IsI32 r
      → Reads
          (read_add_result p (suc (suc fuel)) old)
          (write_add_result p (record { success = r; isset_success = true }))
          (record { success = r; isset_success = true })
  unfolding read_add_result write_add_result add_result_field
  full-Reads fuel old r h =
      Reads-struct laws (add_result_field p) _ _ _ _ _
        (Reads-round laws _ _ _ _ refl (Reads-map _ (laws.i32 _ h)) (Reads-stop laws _ _ _))
        (Reads-return _)

  empty-Reads :
      (fuel : ℕ) (old : AddResult) (success : ℤ)
      → Reads
          (read_add_result p (suc (suc fuel)) old)
          (write_add_result p (record { success = success; isset_success = false }))
          old
  unfolding read_add_result write_add_result
  empty-Reads fuel old success =
      Reads-struct laws (add_result_field p) _ _ _ _ _ (Reads-stop laws _ _ _) (Reads-return _)

  pub result_round :
      (set : Bool) (n : ℤ) (before : AddResult) (fuel : ℕ) (rest : List B)
      → IsI32 n
      → read_add_result p
          (suc (suc fuel))
          before
          (write_add_result p (record { success = n; isset_success = set }) ++ rest)
        ≡ ok (if set then record { success = n; isset_success = set } else before, rest)
  result_round true n before fuel rest h = (full-Reads fuel before n h).run rest
  result_round false n before fuel rest h = (empty-Reads fuel before n).run rest
