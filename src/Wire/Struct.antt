-- ===== src/Wire/Struct.antt =====
-- What each generated `read` and `write` of a structure is made of: the loop over the fields, the
-- branches of its switch, and the order of the calls (access_control/gen-cpp/
-- data_define_template_types.cpp).
use Prim.Native.String.{String}
use dag_executor.Common.{ℕ, zero, suc, List, [], ◌∷◌, ◌++◌, Bool, if◌then◌else◌}
use dag_executor.Common.Int.{ℤ}
use dag_executor.Wire.Result.{stuck, invalid_data, M, return, throw, ◌>>=◌, ◌>>◌}
use dag_executor.Wire.Protocol.{TType, t_stop, same_type, Protocol}

module _ {ℓ} {B : Type ℓ} {D : Type 0} (p : Protocol B D) where
  -- A branch of the switch: a field of the type that it wants is read, any other is skipped.
  abbrev pub typed {κ} : {S : Type κ} → TType → M B S → S → TType → M B S
  typed want read s t = if same_type t want then read else (p.skip t >> return s)

  -- The branch `default`.
  abbrev pub unknown_field {κ} : {S : Type κ} → S → TType → M B S
  unknown_field s t = p.skip t >> return s

  -- The loop `while (true)`, whose switch is `field`; it holds the object and the flags in `S`.
  unfoldable pub read_fields {κ} : {S : Type κ} → (S → TType → ℤ → M B S) → ℕ → S → M B S
  read_fields field zero s bytes = stuck
  read_fields field (suc fuel) s bytes =
      (p.read_field_begin >>= λ h.
      if same_type (h.0) t_stop
      then return s
      else (field s (h.0) (h.1) >>= λ next. p.read_field_end >> read_fields field fuel next))
        bytes

  -- A whole `read`: `check` is what stands behind the loop.
  unfoldable pub read_struct {κ μ} :
      {S : Type κ} {A : Type μ} → (S → TType → ℤ → M B S) → (S → M B A) → ℕ → S → M B A
  unfolding read_fields
  read_struct field check fuel start =
      p.read_struct_begin >> (read_fields field fuel start >>= λ s. p.read_struct_end >> check s)

  -- `writeFieldBegin`, the value, `writeFieldEnd`.
  unfoldable pub put_field : String → TType → ℤ → List B → List B
  put_field name t id value = p.write_field_begin name t id ++ (value ++ p.write_field_end)

  -- The fields one after the other, and `writeFieldStop`.
  unfoldable pub put_fields : List (List B) → List B
  put_fields [] = p.write_field_stop
  put_fields (f ∷ fs) = f ++ put_fields fs

  -- A whole `write`.
  unfoldable pub write_struct : String → List (List B) → List B
  unfolding put_fields
  write_struct name fields = p.write_struct_begin name ++ (put_fields fields ++ p.write_struct_end)

-- `if (!isset_…) throw TProtocolException(TProtocolException::INVALID_DATA)` for all the flags.
abbrev pub required {ℓ κ} : {B : Type ℓ} {A : Type κ} → Bool → A → M B A
required all_set a = if all_set then return a else throw invalid_data
