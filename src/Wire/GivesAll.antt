-- ===== src/Wire/GivesAll.antt =====
-- What the readers of lists and maps return (access_control/gen-cpp/data_define_template_types.cpp).
use dag_executor.Common.{ℕ, zero, suc, ◌≤◌, ◌<◌, ◌^◌, ◌+◌, ◌≡◌, [], length, All, arith}
use dag_executor.Common.OrderedMap.{
  Order, Map, find_or, put, IsSorted, put-IsSorted, length-put, All-put,
}
use dag_executor.Wire.Result.{M}
use dag_executor.Wire.Protocol.{Protocol}
use dag_executor.Wire.Containers.{read_times, read_entries, read_list, read_map}
use dag_executor.Wire.Gives.{Gives, Gives-return, Gives-bind, Gives-any, Gives-imp, InRange}

module _ {ℓ κ μ} {B : Type ℓ} {A : Type κ} (P : A → Type μ) {read : M B A}
    (good : Gives read P) where
  Gives-times : (n : ℕ) → Gives (read_times read n) (λ xs. (length xs ≡ n) × All P xs)
  unfolding read_times
  Gives-times zero = Gives-return [] (omega arith, tt)
  Gives-times (suc n) =
      Gives-bind good
        (λ x h. Gives-bind (Gives-times n) (λ xs k. Gives-return _ (omega (arith, k.0), (h, k.1))))

  pub Gives-list :
      {D : Type 0} {p : Protocol B D}
      → InRange p
      → Gives (read_list p read) (λ xs. (length xs < 2 ^ 32) × All P xs)
  unfolding read_list
  Gives-list {p = p} range = Gives-bind range.list_begin (λ h short.
      Gives-bind (Gives-times (h.1)) (λ xs k.
        Gives-bind (Gives-any p.read_list_end)
          (λ u _. Gives-return xs (omega (arith, k.0, short), k.1))))

module _ {ℓ κ μ ν ρ} {B : Type ℓ} {K : Type κ} {V : Type μ} (o : Order K) (P : K → Type ν)
    (Q : V → Type ρ) {key : M B K} {value : V → M B V} (default : V) (good_key : Gives key P)
    (good_value : (v : V) → Gives (value v) Q) where
  Gives-entries :
      (n : ℕ) (m : Map K V)
      → IsSorted o m
      → All (λ e. P (e.0) × Q (e.1)) m
      → Gives
          (read_entries o key value default n m)
          (λ r. (length r ≤ n + length m) × IsSorted o r × All (λ e. P (e.0) × Q (e.1)) r)
  unfolding read_entries
  Gives-entries zero m sorted all = Gives-return m (omega arith, sorted, all)
  Gives-entries (suc n) m sorted all = Gives-bind good_key (λ k h.
      Gives-bind (good_value (find_or o default k m)) (λ v q.
        Gives-imp (λ r t. (omega (arith, t.0, length-put o k v m), t.1, t.2))
          (Gives-entries n (put o k v m) (put-IsSorted o k v m sorted)
            (All-put o P Q k v m h q all))))

  pub Gives-map :
      {D : Type 0} {p : Protocol B D}
      → InRange p
      → Gives
          (read_map p o key value default)
          (λ m. (length m < 2 ^ 32) × IsSorted o m × All (λ e. P (e.0) × Q (e.1)) m)
  unfolding read_map
  Gives-map {p = p} range = Gives-bind range.map_begin (λ h short.
      Gives-bind (Gives-entries (h.2) [] tt tt) (λ m t.
        Gives-bind (Gives-any p.read_map_end)
          (λ u _. Gives-return m (omega (arith, t.0, short), t.1, t.2))))
