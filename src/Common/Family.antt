-- ===== src/Common/Family.antt =====
-- Families `ℕ → A` indexed by thread or by object: update at one index, sums over the first `n`.
use Prim.Native.Nat.{ℕ, zero, suc, ◌+◌, ◌≤◌, ◌<◌}
use mathlib.Core.Path.{◌≡◌, refl}
use mathlib.Core.Logic.{ite}
use native.Mathlib.Decide.{ℕ_discrete}
use native.Mathlib.Omega.{arith}

abbrev pub update {ℓ} : {A : Type ℓ} → (ℕ → A) → ℕ → A → ℕ → A
update f i a j = ite (ℕ_discrete i j) a (f j)

module _ {ℓ} {A : Type ℓ} (weight : A → ℕ) where
  -- the sum of the weights at the indices below a bound
  unfoldable pub total : ℕ → (ℕ → A) → ℕ
  total zero xs = 0
  total (suc k) xs = weight (xs k) + total k xs

  -- The sum reads the family only below the bound.
  total-agree :
      (xs ys : ℕ → A) (k : ℕ)
      → ((j : ℕ) → j < k → weight (xs j) ≡ weight (ys j))
      → total k xs ≡ total k ys
  unfolding total
  total-agree xs ys zero same = refl
  total-agree xs ys (suc k) same =
      omega (arith, same k (omega arith), total-agree xs ys k (λ j below. same j (omega arith)))

  pub le-total : (k : ℕ) (xs : ℕ → A) (j : ℕ) → j < k → weight (xs j) ≤ total k xs
  unfolding total
  le-total zero xs j below = absurd (omega arith)
  le-total (suc k) xs j below = elim (ℕ_discrete j k) [
    | yes same ↦ ground arith
    | no other ↦ omega (arith, le-total k xs j (omega arith))
  ]

  -- The new weight takes the place of the old one in the sum.
  pub total-update :
      (k : ℕ) (xs : ℕ → A) (j : ℕ) (x : A)
      → j < k
      → total k (update xs j x) + weight (xs j) ≡ total k xs + weight x
  unfolding total
  total-update zero xs j x below = absurd (omega arith)
  total-update (suc k) xs j x below = elim (ℕ_discrete j k) [
    | yes same ↦ ground (arith, total-agree (update xs j x) xs k (λ i lower. ground arith))
    | no other ↦ ground (arith, total-update k xs j x (omega arith))
  ]

  pub total-le : ((x : A) → weight x ≤ 1) → (k : ℕ) (xs : ℕ → A) → total k xs ≤ k
  unfolding total
  total-le light zero xs = omega arith
  total-le light (suc k) xs = omega (arith, total-le light k xs, light (xs k))

  -- Weights of at most 1 that add up to the bound are all 1.
  pub total-full :
      ((x : A) → weight x ≤ 1)
      → (k : ℕ) (xs : ℕ → A) (j : ℕ) → j < k
      → total k xs ≡ k
      → weight (xs j) ≡ 1
  unfolding total
  total-full light zero xs j below e = absurd (omega arith)
  total-full light (suc k) xs j below e = elim (ℕ_discrete j k) [
    | yes same ↦ ground (arith, light (xs k), total-le light k xs)
    | no other ↦
        total-full light k xs j (omega arith) (omega (arith, light (xs k), total-le light k xs))
  ]

  pub total-zero : (k : ℕ) (xs : ℕ → A) → ((j : ℕ) → weight (xs j) ≡ 0) → total k xs ≡ 0
  unfolding total
  total-zero zero xs none = refl
  total-zero (suc k) xs none = omega (arith, none k, total-zero k xs none)

  pub total-pos : (k : ℕ) (xs : ℕ → A) → 0 < total k xs → (j : ℕ) × (j < k) × (0 < weight (xs j))
  unfolding total
  total-pos zero xs some_weight = absurd (omega arith)
  total-pos (suc k) xs some_weight = elim (ℕ_discrete (weight (xs k)) 0) [
    | yes none ↦ let (j, below, w) = total-pos k xs (omega arith) in (j, omega arith, w)
    | no last ↦ (k, omega arith, omega arith)
  ]

pub total_mono {ℓ} :
    {A : Type ℓ} (v w : A → ℕ)
    → ((x : A) → v x ≤ w x)
    → (k : ℕ) (xs : ℕ → A) → total v k xs ≤ total w k xs
unfolding total
total_mono v w below zero xs = omega arith
total_mono v w below (suc k) xs = omega (arith, below (xs k), total_mono v w below k xs)
