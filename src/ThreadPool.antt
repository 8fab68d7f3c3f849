-- ===== src/ThreadPool.antt =====
-- thread_pool/thread_pool.h and thread_pool.cpp: the workers' bounded queues and the round-robin
-- dispatch of `ThreadPool::add_task`. `F` is the type of the submitted functions.
pub mod Loop
pub mod Dispatch
pub mod Invariant
pub mod Safety
pub mod Service
pub mod Refines
pub mod Drains
pub mod Shutdown
pub mod LostWakeup
pub mod Destructor
mod Tests
use dag_executor.Common.{
  ℕ, ◌+◌, ◌%◌, Bool, true, false, Option, none, some, List, [], ◌∷◌, ◌++◌, leb, ◌==◌, if◌then◌else◌,
  length, update,
}

-- `class Worker` without its mutex, condition variable and back pointer, which belong to the loop.
pub record Worker {ℓ} (F : Type ℓ) : Type ℓ where
  pub tasks_queue : List F
  pub tasks_size : ℕ
  pub worker_id : ℕ

-- `class ThreadPool`; `workers i` is `workers_[i]`, and counts only for `i < worker_num`.
pub record ThreadPool {ℓ} (F : Type ℓ) : Type ℓ where
  pub worker_num : ℕ
  pub tasks_size : ℕ
  pub workers : ℕ → Worker F
  pub idx : ℕ
  pub stop : Bool
  pub stop_num : ℕ

-- What a critical section of `Worker::add_task` leaves behind: the worker, the result, and whether
-- it called `task_cond_.notify_one()`.
pub record Added {ℓ} (F : Type ℓ) : Type ℓ where
  pub worker : Worker F
  pub accepted : Bool
  pub notified : Bool

module _ {ℓ} {F : Type ℓ} where
  -- `Worker::Worker`
  abbrev pub new_worker : ℕ → ℕ → Worker F
  new_worker size id = record { tasks_queue = []; tasks_size = size; worker_id = id }

  -- `ThreadPool::ThreadPool`, without the threads that `run_` starts
  unfoldable pub new_pool : ℕ → ℕ → ThreadPool F
  new_pool worker_num tasks_size = record {
    worker_num = worker_num;
    tasks_size = tasks_size;
    workers = λ i. new_worker tasks_size i;
    idx = 0;
    stop = false;
    stop_num = 0;
  }

  -- `Worker::add_task`
  unfoldable pub worker_add_task : Worker F → F → Added F
  worker_add_task w f =
      if leb w.tasks_size (length w.tasks_queue)
      then record { worker = w; accepted = false; notified = false }
      else record {
        worker = record w { tasks_queue = w.tasks_queue ++ f ∷ [] };
        accepted = true;
        notified = length (w.tasks_queue ++ f ∷ []) == 1;
      }

  -- `ThreadPool::add_task`; `none` is the fault of `workers_[idx_]` on a pool with no worker. What
  -- `Worker::add_task` returns is dropped, and with it the task that found its queue full.
  unfoldable pub add_task : ThreadPool F → F → Option (ThreadPool F)
  unfolding worker_add_task
  add_task p f =
      if p.stop
      then some p
      else if leb p.worker_num p.idx
      then none
      else some (record p {
        workers = update p.workers p.idx (worker_add_task (p.workers p.idx) f).worker;
        idx = (p.idx + 1) % p.worker_num;
      })
