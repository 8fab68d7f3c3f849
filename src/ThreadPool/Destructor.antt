-- ===== src/ThreadPool/Destructor.antt =====
-- `ThreadPool::~ThreadPool` (thread_pool/thread_pool.cpp): behind its call of `stop`, the joins and
-- the deletes, while the other threads run on.
pub mod Invariant
pub mod Safe
pub mod Ends
use dag_executor.Common.{
  ℕ, suc, ◌+◌, ◌≤◌, ◌<◌, ◌≡◌, ◌≢◌, ◌⊎◌, inl, inr, refl, arith, update, ℕ_discrete, List,
}
use dag_executor.ThreadPool.Loop.{
  Pc, counted, done, Caller, chosen, Stopper, returned, System, Move, Step, work, count_over,
  notify_over, reject, offer, choose, place, load, store, flag, begin_notify, notify_worker,
  end_notify, all_over, not_over, block_stop, spurious_stop, Reach, here, later, notify, init,
}

-- Where the destructor stands.
pub data Destruct : Type 0 where
  in_stop : Destruct
  joining : ℕ → Destruct  -- before the `join` of this thread
  deleting : ℕ → Destruct  -- before the `delete` of this worker
  destroyed : Destruct

-- `deletes i` counts how often `workers_[i]` has been deleted; no step reads it.
pub record Pool {ℓ} (F : Type ℓ) : Type ℓ where
  pub threads : System F
  pub stage : Destruct
  pub deletes : ℕ → ℕ

-- Each thread is joinable, and `join` returns when the thread has ended.
pub data Destroy {ℓ} {F : Type ℓ} (d : Pool F) : Pool F → Type ℓ where
  thread : {t : System F} → Step d.threads t → Destroy d (record d { threads = t })
  stop_back :
      d.stage ≡ in_stop → d.threads.stopper ≡ returned → Destroy d (record d { stage = joining 0 })
  join :
      {i : ℕ}
      → d.stage ≡ joining i
      → i < d.threads.pool.worker_num
      → d.threads.pc i ≡ done
      → Destroy d (record d { stage = deleting i })
  delete :
      {i : ℕ}
      → d.stage ≡ deleting i
      → Destroy d
          (record d { stage = joining (suc i); deletes = update d.deletes i (d.deletes i + 1) })
  all_joined :
      {i : ℕ}
      → d.stage ≡ joining i
      → d.threads.pool.worker_num ≤ i
      → Destroy d (record d { stage = destroyed })

pub data Destroys {ℓ} {F : Type ℓ} (d : Pool F) : Pool F → Type ℓ where
  no_step : Destroys d d
  and_then : {e f : Pool F} → Destroys d e → Destroy e f → Destroys d f

-- The pool as it is constructed.
abbrev pub new {ℓ} : (F : Type ℓ) → ℕ → ℕ → Pool F
new F n size = record { threads = init n size; stage = in_stop; deletes = λ _. 0 }

-- The step reads or writes the object of worker `i`.
abbrev pub Touches {ℓ} : {F : Type ℓ} {s t : System F} → Step s t → ℕ → Type 0
Touches (work j lt mv) i = j ≡ i
Touches (count_over j lt e) i = j ≡ i
Touches (place c {k = k} e free) i = k ≡ i
Touches (notify_worker {k} e lt) i = k ≡ i
Touches _ i = ⊥
