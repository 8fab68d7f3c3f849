-- ===== src/Wire/Throws.antt =====
-- Readers that throw on what was written, whatever follows.
use dag_executor.Common.{ℕ, List, [], ◌++◌, ◌≡◌, refl}
use Prim.Native.String.{String}
use dag_executor.Common.Int.{ℤ}
use mathlib.Core.List.{append_assoc, append-nil}
use dag_executor.Wire.Result.{err, Error, M, throw, ◌>>=◌}
use dag_executor.Wire.Protocol.{TType, Protocol}
use dag_executor.Wire.Struct.{read_fields, read_struct, put_fields, write_struct}
use dag_executor.Wire.Reads.{Reads, Laws}

pub record Throws {ℓ κ} {B : Type ℓ} {A : Type κ} (m : M B A) (written : List B) (e : Error)
    : Type (ℓ ⊔ κ) where
  pub run : (rest : List B) → m (written ++ rest) ≡ err e

module _ {ℓ κ} {B : Type ℓ} {A : Type κ} where
  pub Throws-throw : (e : Error) → Throws {B = B} {A = A} (throw e) [] e
  Throws-throw e = record { run = λ rest. refl }

  -- What stands behind a reader throws.
  pub Throws-bind {μ} :
      {C : Type μ} {m : M B A} {v w : List B} {a : A} {e : Error} (f : A → M B C)
      → Reads m v a
      → Throws (f a) w e
      → Throws (m >>= f) (v ++ w) e
  Throws-bind {v = v} {w} f r q = record {
    run = λ rest. rw (append_assoc v w rest, r.run (w ++ rest), ◌>>=◌) (q.run rest);
  }

  pub Throws-last {μ} :
      {C : Type μ} {m : M B A} {v : List B} {a : A} {e : Error} (f : A → M B C)
      → Reads m v a
      → Throws (f a) [] e
      → Throws (m >>= f) v e
  Throws-last {v = v} f r q = rw (append-nil v) at (Throws-bind f r q)

-- A structure whose check throws.
module _ {ℓ κ} {B : Type ℓ} {D : Type 0} {S : Type κ} {p : Protocol B D} (laws : Laws p)
    (field : S → TType → ℤ → M B S) where
  pub Throws-struct {μ} :
      {A : Type μ} {s : S} {e : Error} (check : S → M B A) (fuel : ℕ) (start : S) (name : String)
      (fields : List (List B))
      → Reads (read_fields p field fuel start) (put_fields p fields) s
      → Throws (check s) [] e
      → Throws (read_struct p field check fuel start) (write_struct p name fields) e
  unfolding read_struct write_struct
  Throws-struct check fuel start name fields r q =
      Throws-bind _ (laws.struct_begin name)
        (Throws-bind _ r (Throws-last (λ _. check _) laws.struct_end q))
