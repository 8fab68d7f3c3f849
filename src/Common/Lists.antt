-- ===== src/Common/Lists.antt =====
-- Lists measured and indexed by native numbers, under the library's names.
use Prim.Native.Nat.{ℕ, zero, suc, ◌+◌, ◌≤◌, ◌<◌}
use mathlib.Core.Path.{◌≡◌, refl}
use mathlib.Core.List.{List, [], ◌∷◌, ◌++◌, map}
use native.Mathlib.Omega.{arith}
use native.Mathlib.Decide.{dec_lt}
use dag_executor.Common.Tests.{◌==◌, if◌then◌else◌}
use mathlib.Core.Option.{Option, none, some}
use mathlib.Core.Bool.{Bool, true, false, ◌&&◌}

module _ {ℓ} {A : Type ℓ} where
  abbrev pub length : List A → ℕ
  length [] = 0
  length (x ∷ xs) = suc (length xs)

  pub length-append : (xs ys : List A) → length (xs ++ ys) ≡ length xs + length ys
  length-append [] ys = omega arith
  length-append (x ∷ xs) ys = omega (arith, length-append xs ys)

pub length-map {ℓ κ} :
    {A : Type ℓ} {B : Type κ} (f : A → B) (xs : List A) → length (map f xs) ≡ length xs
length-map f [] = refl
length-map f (x ∷ xs) = omega (arith, length-map f xs)

module _ {ℓ} {A : Type ℓ} where
  abbrev pub get_elem? : List A → ℕ → Option A
  get_elem? [] i = none
  get_elem? (x ∷ xs) zero = some x
  get_elem? (x ∷ xs) (suc i) = get_elem? xs i

  pub get_elem?-append :
      (xs : List A) (y : A) (ys : List A) → get_elem? (xs ++ y ∷ ys) (length xs) ≡ some y
  get_elem?-append [] y ys = refl
  get_elem?-append (x ∷ xs) y ys = get_elem?-append xs y ys

-- How often a number stands in a list.
abbrev pub count : ℕ → List ℕ → ℕ
count a [] = 0
count a (x ∷ xs) = (if a == x then 1 else 0) + count a xs

pub count-append : (a : ℕ) (xs ys : List ℕ) → count a (xs ++ ys) ≡ count a xs + count a ys
count-append a [] ys = omega arith
count-append a (x ∷ xs) ys = ground (arith, count-append a xs ys)

-- The lists have the same entries.
abbrev pub eqb_list : List ℕ → List ℕ → Bool
eqb_list [] [] = true
eqb_list (x ∷ xs) (y ∷ ys) = (x == y) && eqb_list xs ys
eqb_list _ _ = false

-- The sum of the weights of the entries.
abbrev pub weigh : (ℕ → ℕ) → List ℕ → ℕ
weigh w [] = 0
weigh w (x ∷ xs) = w x + weigh w xs

pub weigh-append : (w : ℕ → ℕ) (xs ys : List ℕ) → weigh w (xs ++ ys) ≡ weigh w xs + weigh w ys
weigh-append w [] ys = omega arith
weigh-append w (x ∷ xs) ys = omega (arith, weigh-append w xs ys)

-- `a` without one of its entries equal to `x`.
remove : ℕ → List ℕ → List ℕ
remove x [] = []
remove x (y ∷ ys) = if x == y then ys else y ∷ remove x ys

weigh-remove :
    (w : ℕ → ℕ) (x : ℕ) (ys : List ℕ) → 0 < count x ys → weigh w ys ≡ w x + weigh w (remove x ys)
unfolding remove
weigh-remove w x [] h = absurd (omega arith)
weigh-remove w x (y ∷ ys) h = ground (arith, weigh-remove w x ys)

count-remove :
    (b x : ℕ) (ys : List ℕ)
    → 0 < count x ys
    → count b ys ≡ (if b == x then 1 else 0) + count b (remove x ys)
unfolding remove
count-remove b x [] h = absurd (omega arith)
count-remove b x (y ∷ ys) h = ground (arith, count-remove b x ys)

-- A list whose entries all stand in another, as often at least, weighs no more.
pub weigh_mono :
    (w : ℕ → ℕ) (xs ys : List ℕ) → ((b : ℕ) → count b xs ≤ count b ys) → weigh w xs ≤ weigh w ys
weigh_mono w [] ys h = omega arith
weigh_mono w (x ∷ xs) ys h = omega (
  arith,
  weigh-remove w x ys present,
  weigh_mono w xs (remove x ys) λ b. ground (arith, h b, count-remove b x ys present),
)
  where
    present : 0 < count x ys
    present = ground (arith, h x)

length-weigh : (xs : List ℕ) → length xs ≡ weigh (λ _. 1) xs
length-weigh [] = refl
length-weigh (x ∷ xs) = omega (arith, length-weigh xs)

pub length_mono : (xs ys : List ℕ) → ((b : ℕ) → count b xs ≤ count b ys) → length xs ≤ length ys
length_mono xs ys h = rw (length-weigh xs, length-weigh ys) (weigh_mono (λ _. 1) xs ys h)

-- If nothing is lost in weight, then nothing that has a weight is missing.
pub weigh-all :
    (w : ℕ → ℕ) (xs ys : List ℕ)
    → ((b : ℕ) → count b xs ≤ count b ys)
    → weigh w ys ≤ weigh w xs
    → (b : ℕ) → 0 < w b
    → count b ys ≤ count b xs
weigh-all w xs ys h heavy b weight = elim (dec_lt (count b xs) (count b ys)) [
  | yes missing ↦
      absurd (omega (arith, weigh_mono w (b ∷ xs) ys (λ c. ground (arith, h c, missing)), heavy))
  | no full ↦ omega arith
]

pub le-weigh : (w : ℕ → ℕ) (xs : List ℕ) (b : ℕ) → 0 < count b xs → w b ≤ weigh w xs
le-weigh w [] b h = absurd (omega arith)
le-weigh w (x ∷ xs) b h = ground (arith, le-weigh w xs b)

pub weigh-pos : (w : ℕ → ℕ) (xs : List ℕ) → 0 < weigh w xs → (b : ℕ) × (0 < count b xs) × (0 < w b)
weigh-pos w [] h = absurd (omega arith)
weigh-pos w (x ∷ xs) h = elim (dec_lt 0 (w x)) [
  | yes heavy ↦ (x, ground arith, heavy)
  | no light ↦ let (b, mem, weight) = weigh-pos w xs (omega arith) in (b, ground arith, weight)
]

-- What lacks weight lacks an entry.
pub weigh-missing :
    (w : ℕ → ℕ) (xs ys : List ℕ)
    → weigh w xs < weigh w ys
    → (b : ℕ) × (0 < w b) × (count b xs < count b ys)
weigh-missing w xs [] h = absurd (omega arith)
weigh-missing w xs (y ∷ ys) h = elim (dec_lt 0 (count y xs)) [
  | yes present ↦
      let (b, weight, less) =
        weigh-missing w (remove y xs) ys (omega (arith, weigh-remove w y xs present)) in
      (b, weight, omega (arith, count-remove b y xs present))
  | no absent ↦ elim (dec_lt 0 (w y)) [
    | yes heavy ↦ (y, heavy, ground arith)
    | no light ↦
        let (b, weight, less) = weigh-missing w xs ys (omega arith) in (b, weight, ground arith)
  ]
]

pub count-le-length : (b : ℕ) (xs : List ℕ) → count b xs ≤ length xs
count-le-length b [] = omega arith
count-le-length b (x ∷ xs) = ground (arith, count-le-length b xs)

pub length-all :
    (xs ys : List ℕ)
    → ((b : ℕ) → count b xs ≤ count b ys)
    → length ys ≤ length xs
    → (b : ℕ) → count b ys ≤ count b xs
length-all xs ys h long b =
    weigh-all (λ _. 1) xs ys h (omega (arith, length-weigh xs, length-weigh ys)) b (omega arith)

-- All items have the property.
abbrev pub All {ℓ κ} : {A : Type ℓ} → (A → Type κ) → List A → Type κ
All P [] = Unit
All P (x ∷ xs) = P x × All P xs
