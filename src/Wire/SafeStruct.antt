-- ===== src/Wire/SafeStruct.antt =====
-- Termination of what the generated `read`s are made of (access_control/gen-cpp/
-- data_define_template_types.cpp).
use dag_executor.Common.{ℕ, zero, suc, ◌<◌, Bool, [], arith, if◌then◌else◌}
use dag_executor.Common.Int.{ℤ, eqb_ℤ}
use dag_executor.Common.OrderedMap.{Order, Map, find_or, put}
use dag_executor.Wire.Result.{M, return, invalid_data, ◌>>=◌}
use dag_executor.Wire.Protocol.{TType, t_stop, same_type, Protocol}
use dag_executor.Wire.Struct.{typed, unknown_field, read_fields, read_struct, required}
use dag_executor.Wire.Containers.{read_times, read_entries, read_list, read_map}
use dag_executor.Wire.Safe.{
  Safe, Progress, Safe-le, Safe-return, Safe-throw, Safe-if, Safe-bind, Safe-first,
}

module _ {ℓ} {B : Type ℓ} {D : Type 0} {p : Protocol B D} (progress : Progress p) where
  module _ {κ} {S : Type κ} where
    -- The branches of a switch.
    pub Safe-typed :
        (want t : TType) (n : ℕ) {read : M B S} (s : S)
        → Safe n read
        → Safe n (typed p want read s t)
    Safe-typed want t n s r =
        Safe-if (same_type t want) r (Safe-bind n (progress.skip t n) (λ u. Safe-return n s))

    -- A branch for the field `key` that stores a value, and the branches behind it.
    pub Safe-store {μ} :
        {V : Type μ} (id key : ℤ) (want t : TType) {read : M B V} (f : V → S) {m : M B S} (n : ℕ)
        (s : S)
        → Safe n read
        → Safe n m
        → Safe n (if eqb_ℤ id key then typed p want (read >>= λ v. return (f v)) s t else m)
    Safe-store id key want t f n s r q =
        Safe-if (eqb_ℤ id key) (Safe-typed want t n s (Safe-bind n r (λ v. Safe-return n (f v)))) q

    pub Safe-unknown : (t : TType) (n : ℕ) (s : S) → Safe n (unknown_field p s t)
    Safe-unknown t n s = Safe-bind n (progress.skip t n) (λ u. Safe-return n s)

    -- The loop, with more fuel than bytes.
    Safe-fields :
        (field : S → TType → ℤ → M B S) (fuel n : ℕ) (s : S)
        → n < fuel
        → ((s : S) (t : TType) (id : ℤ) → Safe n (field s t id))
        → Safe n (read_fields p field fuel s)
    unfolding read_fields
    Safe-fields field zero n s h r = omega arith
    Safe-fields field (suc fuel) n s h r = Safe-first n progress.field_begin (λ k a l.
        Safe-if (same_type (a.0) t_stop) (Safe-return k s) (
          Safe-bind k (Safe-le (omega arith) (r s (a.0) (a.1))) (λ next.
            Safe-bind k (progress.field_end k) (λ u.
              Safe-fields field fuel k next (omega arith)
                (λ s t id. Safe-le (omega arith) (r s t id))))))

    pub Safe-struct {μ} :
        {A : Type μ} (field : S → TType → ℤ → M B S) (check : S → M B A) (fuel n : ℕ) (start : S)
        → n < fuel
        → ((s : S) (t : TType) (id : ℤ) → Safe n (field s t id))
        → ((s : S) → Safe n (check s))
        → Safe n (read_struct p field check fuel start)
    unfolding read_struct
    Safe-struct field check fuel n start h r c = Safe-bind n (progress.struct_begin n) (λ u.
        Safe-bind n (Safe-fields field fuel n start h r)
          (λ s. Safe-bind n (progress.struct_end n) (λ u. c s)))

  pub Safe-required {κ} :
      {A : Type κ} (set : Bool) (n : ℕ) (a : A) → Safe {B = B} n (required set a)
  Safe-required set n a = Safe-if set (Safe-return n a) (Safe-throw n invalid_data)

  Safe-times {κ} : {A : Type κ} {read : M B A} (k n : ℕ) → Safe n read → Safe n (read_times read k)
  unfolding read_times
  Safe-times zero n r = Safe-return n []
  Safe-times (suc k) n r =
      Safe-bind n r (λ x. Safe-bind n (Safe-times k n r) (λ xs. Safe-return n _))

  pub Safe-list {κ} : {A : Type κ} {read : M B A} (n : ℕ) → Safe n read → Safe n (read_list p read)
  unfolding read_list
  Safe-list n r = Safe-bind n (progress.list_begin n) (λ h.
      Safe-bind n (Safe-times (h.1) n r)
        (λ xs. Safe-bind n (progress.list_end n) (λ u. Safe-return n xs)))

  module _ {κ μ} {K : Type κ} {V : Type μ} (o : Order K) {key : M B K} {value : V → M B V} where
    Safe-entries :
        (default : V) (k n : ℕ) (m : Map K V)
        → Safe n key
        → ((v : V) → Safe n (value v))
        → Safe n (read_entries o key value default k m)
    unfolding read_entries
    Safe-entries default zero n m r q = Safe-return n m
    Safe-entries default (suc k) n m r q = Safe-bind n r (λ x.
        Safe-bind n (q (find_or o default x m)) (λ v. Safe-entries default k n (put o x v m) r q))

    pub Safe-map :
        (default : V) (n : ℕ)
        → Safe n key
        → ((v : V) → Safe n (value v))
        → Safe n (read_map p o key value default)
    unfolding read_map
    Safe-map default n r q = Safe-bind n (progress.map_begin n) (λ h.
        Safe-bind n (Safe-entries default (h.2) n [] r q)
          (λ m. Safe-bind n (progress.map_end n) (λ u. Safe-return n m)))
