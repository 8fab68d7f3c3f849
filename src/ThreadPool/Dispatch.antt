-- ===== src/ThreadPool/Dispatch.antt =====
-- `ThreadPool::add_task` on every branch (thread_pool/thread_pool.cpp).
use native.Mathlib.Nat.{mod-lt}
use dag_executor.Common.{
  ◌+◌, ◌%◌, ◌<◌, ◌≡◌, refl, inl, inr, true, false, Option, some, List, [], ◌∷◌, ◌++◌, arith, length,
  update, Bool-cases, Option-cases, ◌>>=◌,
}
use dag_executor.ThreadPool.{ThreadPool, worker_add_task, add_task}

-- The worker under `idx_` takes `f` at the end of its queue, and `idx_` moves on.
abbrev pub pushed {ℓ} : {F : Type ℓ} → ThreadPool F → F → ThreadPool F
pushed p f = record p {
  workers =
      update p.workers p.idx
        (record (p.workers p.idx) { tasks_queue = (p.workers p.idx).tasks_queue ++ f ∷ [] });
  idx = (p.idx + 1) % p.worker_num;
}

module _ {ℓ} {F : Type ℓ} (p : ThreadPool F) (f : F) where
  -- A call on a running pool with room in the queue whose turn it is.
  pub add_task-pushed :
      p.stop ≡ false
      → p.idx < p.worker_num
      → length (p.workers p.idx).tasks_queue < (p.workers p.idx).tasks_size
      → add_task p f ≡ some (pushed p f)
  unfolding add_task worker_add_task
  add_task-pushed on lt room = ground arith

  -- A call on a stopped pool changes nothing: the function is dropped.
  pub add_task-stopped : p.stop ≡ true → add_task p f ≡ some p
  unfolding add_task
  add_task-stopped off = ground arith

-- `ThreadPool::add_task` for each function of a list, in order.
unfoldable pub submit_all {ℓ} : {F : Type ℓ} → ThreadPool F → List F → Option (ThreadPool F)
submit_all p [] = some p
submit_all p (f ∷ fs) = add_task p f >>= λ q. submit_all q fs

pub submit_all-append {ℓ} :
    {F : Type ℓ} (p : ThreadPool F) (fs gs : List F)
    → submit_all p (fs ++ gs) ≡ (submit_all p fs >>= λ q. submit_all q gs)
unfolding submit_all
submit_all-append p [] gs = refl
submit_all-append p (f ∷ fs) gs = elim (Option-cases (add_task p f)) [
  | inl e ↦ rw e
  | inr (q, e) ↦ rw e (submit_all-append q fs gs)
]

-- A pool with a worker under `idx_`, on which no call faults.
abbrev pub IsServing {ℓ} : {F : Type ℓ} → ThreadPool F → Type 0
IsServing p = p.idx < p.worker_num

pub add_task-IsServing {ℓ} :
    {F : Type ℓ} (p : ThreadPool F) (f : F)
    → IsServing p
    → (q : ThreadPool F) × (add_task p f ≡ some q) × IsServing q
unfolding add_task
add_task-IsServing p f lt = elim (Bool-cases p.stop) [
  | inl off ↦ (p, ground arith, lt)
  | inr on ↦ (
    record p {
      workers = update p.workers p.idx (worker_add_task (p.workers p.idx) f).worker;
      idx = (p.idx + 1) % p.worker_num;
    },
    ground arith,
    mod-lt (p.idx + 1) (omega arith),
  )
]
