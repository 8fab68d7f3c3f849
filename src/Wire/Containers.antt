-- ===== src/Wire/Containers.antt =====
-- The loops that a generated `read` and `write` have for a list and for a map
-- (access_control/gen-cpp/data_define_template_types.cpp).
use dag_executor.Common.{ℕ, zero, suc, ◌%◌, ◌^◌, List, [], ◌∷◌, ◌++◌, length}
use dag_executor.Common.OrderedMap.{Order, Map, put, find_or}
use dag_executor.Wire.Result.{M, return, ◌>>=◌, ◌>>◌}
use dag_executor.Wire.Protocol.{TType, Protocol}

module _ {ℓ} {B : Type ℓ} where
  -- The loop over the elements of a list: `_size` rounds.
  unfoldable pub read_times {κ} : {A : Type κ} → M B A → ℕ → M B (List A)
  read_times read zero = return []
  read_times read (suc n) = read >>= λ x. read_times read n >>= λ xs. return (x ∷ xs)

  -- The loop over the entries of a map. A value is read into the object that the map holds for
  -- the key, which is `default` if it was not there.
  unfoldable pub read_entries {κ μ} :
      {K : Type κ} {V : Type μ} → Order K → M B K → (V → M B V) → V → ℕ → Map K V → M B (Map K V)
  read_entries o key value default zero m = return m
  read_entries o key value default (suc n) m = key >>= λ k.
      value (find_or o default k m) >>= λ v. read_entries o key value default n (put o k v m)

  -- The bytes of all elements, one after the other.
  unfoldable pub write_all {κ} : {A : Type κ} → (A → List B) → List A → List B
  write_all write [] = []
  write_all write (x ∷ xs) = write x ++ write_all write xs

  module _ {D : Type 0} (p : Protocol B D) where
    unfoldable pub read_list {κ} : {A : Type κ} → M B A → M B (List A)
    unfolding read_times
    read_list read =
        p.read_list_begin >>= λ h. read_times read (h.1) >>= λ xs. p.read_list_end >> return xs

    unfoldable pub read_map {κ μ} :
        {K : Type κ} {V : Type μ} → Order K → M B K → (V → M B V) → V → M B (Map K V)
    unfolding read_entries
    read_map o key value default = p.read_map_begin >>= λ h.
        read_entries o key value default (h.2) [] >>= λ m. p.read_map_end >> return m

    -- `static_cast<uint32_t>` of the size
    unfoldable pub write_list {κ} : {A : Type κ} → TType → (A → List B) → List A → List B
    unfolding write_all
    write_list t write xs =
        p.write_list_begin t (length xs % 2 ^ 32) ++ (write_all write xs ++ p.write_list_end)

    unfoldable pub write_map {κ μ} :
        {K : Type κ} {V : Type μ} → TType → TType → (K → List B) → (V → List B) → Map K V → List B
    unfolding write_all
    write_map kt vt key value m =
        p.write_map_begin kt vt (length m % 2 ^ 32)
        ++ (write_all (λ e. key (e.0) ++ value (e.1)) m ++ p.write_map_end)
