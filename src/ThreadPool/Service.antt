-- ===== src/ThreadPool/Service.antt =====
-- What a pool of workers does for its callers, without threads, locks and places: each worker
-- serves the functions that it has accepted one after the other, in order
-- (thread_pool/thread_pool.h).
use mathlib.Core.List.{append_assoc, append-nil}
use dag_executor.Common.{ℕ, ◌≤◌, ◌<◌, ◌≡◌, List, [], ◌∷◌, ◌++◌, arith, length, update, ℕ_discrete}

-- By caller the function that it wants run, and by worker the functions accepted and not completed
-- and those completed.
pub record Service {ℓ} (F : Type ℓ) : Type ℓ where
  pub asked : ℕ → List F
  pub pending : ℕ → List F
  pub completed : ℕ → List F

-- One family is the other, or the other but for one place.
abbrev pub Same {ℓ} : {F : Type ℓ} → (ℕ → List F) → (ℕ → List F) → Type ℓ
Same f g = (j : ℕ) → g j ≡ f j

abbrev pub Changed {ℓ} : {F : Type ℓ} → (ℕ → List F) → ℕ → List F → (ℕ → List F) → Type ℓ
Changed f i x g = (j : ℕ) → g j ≡ update f i x j

-- A step of `n` workers that have room for `size` functions each.
pub data Serve {ℓ} {F : Type ℓ} (n size : ℕ) (a b : Service F) : Type ℓ where
  silent :
      Same a.asked b.asked
      → Same a.pending b.pending
      → Same a.completed b.completed
      → Serve n size a b
  -- A caller comes with a function.
  ask :
      (c : ℕ) (f : F)
      → a.asked c ≡ []
      → Changed a.asked c (f ∷ []) b.asked
      → Same a.pending b.pending
      → Same a.completed b.completed
      → Serve n size a b
  -- A worker with room takes a caller's function behind those that it has.
  accept :
      (c k : ℕ) (f : F)
      → k < n
      → a.asked c ≡ f ∷ []
      → length (a.pending k) ≤ size
      → Changed a.asked c [] b.asked
      → Changed a.pending k (a.pending k ++ f ∷ []) b.pending
      → Same a.completed b.completed
      → Serve n size a b
  -- A worker without room loses it.
  drop :
      (c k : ℕ) (f : F)
      → k < n
      → a.asked c ≡ f ∷ []
      → size ≤ length (a.pending k)
      → Changed a.asked c [] b.asked
      → Same a.pending b.pending
      → Same a.completed b.completed
      → Serve n size a b
  -- A worker completes the first of its functions.
  complete :
      (i : ℕ) (f : F) (fs : List F)
      → i < n
      → a.pending i ≡ f ∷ fs
      → Same a.asked b.asked
      → Changed a.pending i fs b.pending
      → Changed a.completed i (a.completed i ++ f ∷ []) b.completed
      → Serve n size a b

module _ {ℓ} {F : Type ℓ} where
  -- The functions that a worker has accepted, in order.
  abbrev pub taken : Service F → ℕ → List F
  taken a i = a.completed i ++ a.pending i

  -- `b` has at worker `i` what `a` has and at most one function more.
  abbrev pub Grows : Service F → Service F → ℕ → Type ℓ
  Grows a b i = (fs : List F) × (taken b i ≡ taken a i ++ fs) × (length fs ≤ 1)

  unchanged : (a b : Service F) (i : ℕ) → taken b i ≡ taken a i → Grows a b i
  unchanged a b i e = ([], ground (arith, append-nil (taken a i)), omega arith)

  -- A step puts at most one function behind those that a worker has accepted.
  pub Serve-Grows : {n size : ℕ} {a b : Service F} → Serve n size a b → (i : ℕ) → Grows a b i
  Serve-Grows {a = a} {b = b} (silent asked pending completed) i =
      unchanged a b i (ground (arith, pending i, completed i))
  Serve-Grows {a = a} {b = b} (ask c f e asked pending completed) i =
      unchanged a b i (ground (arith, pending i, completed i))
  Serve-Grows {a = a} {b = b} (accept c k f lt e room asked pending completed) i =
      elim (ℕ_discrete k i) [
        | yes same ↦ (
          f ∷ [],
          ground
              (arith, pending i, completed i, append_assoc (a.completed i) (a.pending i) (f ∷ [])),
          omega arith,
        )
        | no other ↦ unchanged a b i (ground (arith, pending i, completed i))
      ]
  Serve-Grows {a = a} {b = b} (drop c k f lt e full asked pending completed) i =
      unchanged a b i (ground (arith, pending i, completed i))
  Serve-Grows {a = a} {b = b} (complete k f fs lt e asked pending completed) i =
      unchanged a b i
        (ground (arith, e, pending i, completed i, append_assoc (a.completed i) (f ∷ []) fs))
