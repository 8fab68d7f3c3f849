-- ===== src/Wire/Result.antt =====
-- Reading from bytes: a reader returns a value and the bytes that it has left, or an exception.
use dag_executor.Common.{List}
use dag_executor.Util.{Text}

-- `TApplicationException` with its type, as far as the code names it, and `TProtocolException`.
pub data AppError : Type 0 where
  unknown missing_result unknown_method : AppError

pub data Error : Type 0 where
  protocol : Error  -- any exception of the protocol's own operations
  invalid_data : Error
  application : AppError → Text → Error

-- `stuck` is no result of the program: the fuel of a loop ran out.
pub data Result {ℓ} (A : Type ℓ) : Type ℓ where
  ok : A → Result A
  err : Error → Result A
  stuck : Result A

abbrev pub M {ℓ κ} : Type ℓ → Type κ → Type (ℓ ⊔ κ)
M B A = List B → Result (A × List B)

module _ {ℓ} {B : Type ℓ} where
  abbrev pub return {κ} : {A : Type κ} → A → M B A
  return a bytes = ok (a, bytes)

  abbrev pub throw {κ} : {A : Type κ} → Error → M B A
  throw e bytes = err e

  infixl 5 ◌>>=◌ ◌>>◌
  abbrev pub ◌>>=◌ {κ μ} : {A : Type κ} {C : Type μ} → M B A → (A → M B C) → M B C
  ◌>>=◌ m f bytes = elim (m bytes) [ ok (a, rest) ↦ f a rest | err e ↦ err e | stuck ↦ stuck ]

  abbrev pub ◌>>◌ {κ} : {C : Type κ} → M B (Unit {0}) → M B C → M B C
  m >> k = m >>= λ _. k
