-- ===== src/Common/OrderedMap.antt =====
-- `std::map`: its entries in the order of their keys.
use mathlib.Core.Path.{◌≡◌, refl}
use mathlib.Core.Bool.{Bool, true, false, ◌||◌}
use mathlib.Core.List.{List, [], ◌∷◌, ◌++◌}
use native.Mathlib.Omega.{arith}
use Prim.Native.Nat.{suc, ◌≤◌}
use dag_executor.Common.Tests.{if◌then◌else◌}
use dag_executor.Common.Lists.{length, All}

-- `std::less` of a type of keys.
pub record Order {ℓ} (K : Type ℓ) : Type ℓ where
  pub lt : K → K → Bool
  pub asym : (a b : K) → lt a b ≡ true → lt b a ≡ false
  pub trans : (a b c : K) → lt a b ≡ true → lt b c ≡ true → lt a c ≡ true

abbrev pub Map {ℓ κ} : Type ℓ → Type κ → Type (ℓ ⊔ κ)
Map K V = List (K × V)

module _ {ℓ κ} {K : Type ℓ} {V : Type κ} (o : Order K) where
  -- `m[key] = value`
  pub put : K → V → Map K V → Map K V
  put key value [] = (key, value) ∷ []
  put key value ((k, v) ∷ m) =
      let rest = put key value m in
      if o.lt key k
      then (key, value) ∷ (k, v) ∷ m
      else if o.lt k key
      then (k, v) ∷ rest
      else (k, value) ∷ m

  -- `m[key]`, where `default` is the value of a new entry.
  pub find_or : V → K → Map K V → V
  find_or default key [] = default
  find_or default key ((k, v) ∷ m) = if o.lt key k || o.lt k key then find_or default key m else v

  -- `key` comes behind all keys of the map.
  abbrev pub Above : K → Map K V → Type 0
  Above key [] = Unit
  Above key ((k, v) ∷ m) = (o.lt k key ≡ true) × Above key m

  -- Each key of `m` comes behind those before it and those of `before`.
  abbrev pub Follows : Map K V → Map K V → Type 0
  Follows before [] = Unit
  Follows before ((k, v) ∷ m) = Above k before × Follows (before ++ (k, v) ∷ []) m

  -- Each key comes before those behind it.
  abbrev pub Below : K → Map K V → Type 0
  Below key [] = Unit
  Below key ((k, v) ∷ m) = (o.lt key k ≡ true) × Below key m

  abbrev pub IsSorted : Map K V → Type 0
  IsSorted [] = Unit
  IsSorted ((k, v) ∷ m) = Below k m × IsSorted m

  pub put_last :
      (key : K) (value : V) (m : Map K V) → Above key m → put key value m ≡ m ++ (key, value) ∷ []
  unfolding put
  put_last key value [] h = refl
  put_last key value ((k, v) ∷ m) h = ground (arith, o.asym k key, put_last key value m h.1)

  pub find_or-new :
      (default : V) (key : K) (m : Map K V) → Above key m → find_or default key m ≡ default
  unfolding find_or
  find_or-new default key [] h = refl
  find_or-new default key ((k, v) ∷ m) h = ground (arith, find_or-new default key m h.1)

  Below-put :
      (b key : K) (value : V) (m : Map K V)
      → o.lt b key ≡ true
      → Below b m
      → Below b (put key value m)
  unfolding put
  Below-put b key value [] l h = (l, tt)
  Below-put b key value ((k, v) ∷ m) l h = ground (arith, Below-put b key value m l)

  Below-trans : (a b : K) (m : Map K V) → o.lt a b ≡ true → Below b m → Below a m
  Below-trans a b [] l h = tt
  Below-trans a b ((k, v) ∷ m) l h = (o.trans a b k l (h.0), Below-trans a b m l (h.1))

  -- `m[key] = value` keeps the entries in the order of their keys, each key once.
  pub put-IsSorted : (key : K) (value : V) (m : Map K V) → IsSorted m → IsSorted (put key value m)
  unfolding put
  put-IsSorted key value [] h = (tt, tt)
  put-IsSorted key value ((k, v) ∷ m) h =
      ground (arith, put-IsSorted key value m, Below-put k key value m, Below-trans key k m)

  -- It adds one entry at most.
  pub length-put : (key : K) (value : V) (m : Map K V) → length (put key value m) ≤ suc (length m)
  unfolding put
  length-put key value [] = omega arith
  length-put key value ((k, v) ∷ m) = ground (arith, length-put key value m)

  -- What holds of all keys and of all values holds of the new ones.
  pub All-put {μ ν} :
      (P : K → Type μ) (Q : V → Type ν) (key : K) (value : V) (m : Map K V)
      → P key
      → Q value
      → All (λ e. P (e.0) × Q (e.1)) m
      → All (λ e. P (e.0) × Q (e.1)) (put key value m)
  unfolding put
  All-put P Q key value [] p q h = ((p, q), tt)
  All-put P Q key value ((k, v) ∷ m) p q h = ground (arith, All-put P Q key value m p q)

  -- The keys of `m` come behind those of `before`.
  Behind : Map K V → Map K V → Type 0
  Behind before [] = Unit
  Behind before ((k, v) ∷ m) = Above k before × Behind before m

  Above-snoc :
      (key k : K) (v : V) (m : Map K V)
      → o.lt k key ≡ true
      → Above key m
      → Above key (m ++ (k, v) ∷ [])
  Above-snoc key k v [] l h = (l, tt)
  Above-snoc key k v (e ∷ m) l h = (h.0, Above-snoc key k v m l (h.1))

  Behind-snoc :
      (k : K) (v : V) (before m : Map K V)
      → Below k m
      → Behind before m
      → Behind (before ++ (k, v) ∷ []) m
  unfolding Behind
  Behind-snoc k v before [] l h = tt
  Behind-snoc k v before ((k', v') ∷ m) l h =
      (Above-snoc k' k v before (l.0) (h.0), Behind-snoc k v before m (l.1) (h.1))

  sorted-Follows : (before m : Map K V) → Behind before m → IsSorted m → Follows before m
  unfolding Behind
  sorted-Follows before [] h s = tt
  sorted-Follows before ((k, v) ∷ m) h s =
      (h.0, sorted-Follows (before ++ (k, v) ∷ []) m (Behind-snoc k v before m (s.0) (h.1)) (s.1))

  Behind-none : (m : Map K V) → Behind [] m
  unfolding Behind
  Behind-none [] = tt
  Behind-none ((k, v) ∷ m) = (tt, Behind-none m)

  pub IsSorted-Follows : (m : Map K V) → IsSorted m → Follows [] m
  IsSorted-Follows m s = sorted-Follows [] m (Behind-none m) s
