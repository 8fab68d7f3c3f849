-- ===== src/Wire/Safe.antt =====
-- Termination: a reader that never runs out of fuel and never lengthens the bytes, on bytes of a
-- bounded length.
use dag_executor.Common.{ℕ, ◌≤◌, ◌<◌, ◌≢◌, Bool, true, false, List, length, arith, if◌then◌else◌}
use dag_executor.Wire.Result.{Result, ok, err, stuck, M, return, throw, Error, ◌>>=◌}
use dag_executor.Wire.Protocol.{TType, Protocol}

-- The result is one of the program's, and leaves at most `n` bytes.
abbrev pub Leaves {ℓ κ} : {B : Type ℓ} {A : Type κ} → ℕ → Result (A × List B) → Type 0
Leaves n (ok (a, rest)) = length rest ≤ n
Leaves n (err e) = Unit
Leaves n stuck = ⊥

pub record Safe {ℓ κ} {B : Type ℓ} {A : Type κ} (n : ℕ) (m : M B A) : Type ℓ where
  pub run : (bytes : List B) → length bytes ≤ n → Leaves (length bytes) (m bytes)

-- As `Leaves`, but fewer than `n`.
abbrev pub LeavesLess {ℓ κ} : {B : Type ℓ} {A : Type κ} → ℕ → Result (A × List B) → Type 0
LeavesLess n (ok (a, rest)) = length rest < n
LeavesLess n (err e) = Unit
LeavesLess n stuck = ⊥

-- The reader takes at least one byte.
pub record Takes {ℓ κ} {B : Type ℓ} {A : Type κ} (m : M B A) : Type ℓ where
  pub run : (bytes : List B) → LeavesLess (length bytes) (m bytes)

module _ {ℓ κ} {B : Type ℓ} {A : Type κ} where
  pub Leaves-le : (m n : ℕ) (r : Result (A × List B)) → m ≤ n → Leaves m r → Leaves n r
  Leaves-le m n (ok (a, rest)) h k = omega arith
  Leaves-le m n (err e) h k = tt
  Leaves-le m n stuck h k = k

  Leaves-≢ : (n : ℕ) (r : Result (A × List B)) → Leaves n r → r ≢ stuck
  Leaves-≢ n (ok (a, rest)) h e = cc
  Leaves-≢ n (err e') h e = cc
  Leaves-≢ n stuck h e = h

module _ {ℓ κ} {B : Type ℓ} {A : Type κ} where
  pub Safe-le : {m : M B A} {k n : ℕ} → k ≤ n → Safe n m → Safe k m
  Safe-le h s = record { run = λ bytes l. s.run bytes (omega arith) }

  pub Safe-return : (n : ℕ) (a : A) → Safe {B = B} n (return a)
  Safe-return n a = record { run = λ bytes l. omega arith }

  pub Safe-throw : (n : ℕ) (e : Error) → Safe {B = B} {A = A} n (throw e)
  Safe-throw n e = record { run = λ bytes l. tt }

  pub Safe-if : {n : ℕ} {m k : M B A} (b : Bool) → Safe n m → Safe n k → Safe n (if b then m else k)
  Safe-if true s t = s
  Safe-if false s t = t

  module _ {μ} {C : Type μ} where
    bind-Leaves :
        (n l : ℕ) (r : Result (A × List B)) (f : A → M B C)
        → l ≤ n
        → Leaves l r
        → ((a : A) → Safe n (f a))
        → Leaves l (elim r [ ok (a, rest) ↦ f a rest | err e ↦ err e | stuck ↦ stuck ])
    bind-Leaves n l (ok (a, rest)) f h k s =
        Leaves-le (length rest) l _ k ((s a).run rest (omega arith))
    bind-Leaves n l (err e) f h k s = tt
    bind-Leaves n l stuck f h k s = k

    pub Safe-bind :
        {m : M B A} {f : A → M B C} (n : ℕ) → Safe n m → ((a : A) → Safe n (f a)) → Safe n (m >>= f)
    Safe-bind {m} {f} n s t = record {
      run = λ bytes l. bind-Leaves n (length bytes) (m bytes) f l (s.run bytes l) t;
    }

    first-Leaves :
        (n l : ℕ) (r : Result (A × List B)) (f : A → M B C)
        → l ≤ n
        → LeavesLess l r
        → ((k : ℕ) (a : A) → k < n → Safe k (f a))
        → Leaves l (elim r [ ok (a, rest) ↦ f a rest | err e ↦ err e | stuck ↦ stuck ])
    first-Leaves n l (ok (a, rest)) f h k s =
        Leaves-le (length rest) l _ (omega arith)
          ((s (length rest) a (omega arith)).run rest (omega arith))
    first-Leaves n l (err e) f h k s = tt
    first-Leaves n l stuck f h k s = k

    -- Behind a reader that takes a byte there are fewer bytes.
    pub Safe-first :
        {m : M B A} {f : A → M B C} (n : ℕ)
        → Takes m
        → ((k : ℕ) (a : A) → k < n → Safe k (f a))
        → Safe n (m >>= f)
    Safe-first {m} {f} n s t = record {
      run = λ bytes l. first-Leaves n (length bytes) (m bytes) f l (s.run bytes) t;
    }

  pub Safe-≢ : {m : M B A} (n : ℕ) (bytes : List B) → Safe n m → length bytes ≤ n → m bytes ≢ stuck
  Safe-≢ {m} n bytes s h = Leaves-≢ (length bytes) (m bytes) (s.run bytes h)

  less-Leaves : (l : ℕ) (r : Result (A × List B)) → LeavesLess l r → Leaves l r
  less-Leaves l (ok (a, rest)) h = omega arith
  less-Leaves l (err e) h = tt
  less-Leaves l stuck h = h

  pub Safe-Takes : {m : M B A} (n : ℕ) → Takes m → Safe n m
  Safe-Takes {m} n t = record {
    run = λ bytes l. less-Leaves (length bytes) (m bytes) (t.run bytes);
  }

-- No operation of the protocol loops for ever or lengthens the bytes, and the head of a field takes
-- at least one.
pub record Progress {ℓ} {B : Type ℓ} {D : Type 0} (p : Protocol B D) : Type ℓ where
  pub struct_begin : (n : ℕ) → Safe n p.read_struct_begin
  pub struct_end : (n : ℕ) → Safe n p.read_struct_end
  pub field_begin : Takes p.read_field_begin
  pub field_end : (n : ℕ) → Safe n p.read_field_end
  pub list_begin : (n : ℕ) → Safe n p.read_list_begin
  pub list_end : (n : ℕ) → Safe n p.read_list_end
  pub map_begin : (n : ℕ) → Safe n p.read_map_begin
  pub map_end : (n : ℕ) → Safe n p.read_map_end
  pub bool : (n : ℕ) → Safe n p.read_bool
  pub i16 : (n : ℕ) → Safe n p.read_i16
  pub i32 : (n : ℕ) → Safe n p.read_i32
  pub i64 : (n : ℕ) → Safe n p.read_i64
  pub double : (n : ℕ) → Safe n p.read_double
  pub string : (n : ℕ) → Safe n p.read_string
  pub skip : (t : TType) (n : ℕ) → Safe n (p.skip t)
