-- ===== src/DagScheduler/Invariant/Pool.antt =====
-- What the executor's pool does with the tasks of a run (thread_pool/thread_pool.cpp, as
-- dag_scheduler/executor.cpp calls it).
use dag_executor.Common.{
  ℕ, ◌+◌, ◌%◌, ◌≤◌, ◌<◌, ◌≡◌, some, List, [], ◌∷◌, ◌++◌, arith, length, length-append, length_mono,
  count, count-append, total, total-update, le-total, ◌==◌, if◌then◌else◌,
}
use native.Mathlib.Nat.{mod-lt}
use dag_executor.ThreadPool
use dag_executor.ThreadPool.{ThreadPool}
use dag_executor.ThreadPool.Dispatch.{pushed, add_task-pushed}
use dag_executor.DagScheduler.Run.{Dag, queue}
use dag_executor.DagScheduler.Invariant.Defs.{queued, submitted, Inv}

module _ {n size : ℕ} {succ : ℕ → List ℕ} {tasks : List ℕ} {s : Dag} (inv : Inv n size succ tasks s)
    (room : length tasks ≤ size) where
  -- While a task has not been submitted, the queue whose turn it is has room for it.
  queue-lt : (b : ℕ) → submitted n s b < count b tasks → length (queue s s.pool.idx) < size
  unfolding submitted
  queue-lt b fresh = omega (
    arith,
    length-append (queue s s.pool.idx) (b ∷ []),
    length_mono (queue s s.pool.idx ++ b ∷ []) tasks λ c. ground (
      arith,
      inv.once c,
      count-append c (queue s s.pool.idx) (b ∷ []),
      le-total (queued c) n s.pool.workers s.pool.idx inv.in_range,
      fresh,
    ),
  )

  -- So the call of `add_task` accepts it.
  pub add_task-accepts :
      (b : ℕ)
      → submitted n s b < count b tasks
      → ThreadPool.add_task s.pool b ≡ some (pushed s.pool b)
  add_task-accepts b fresh =
      add_task-pushed s.pool b inv.running (omega (arith, inv.workers, inv.in_range))
        (omega (arith, queue-lt b fresh, inv.sizes s.pool.idx))

  pub queued-pushed :
      (b c : ℕ)
      → total (queued c) n (pushed s.pool b).workers
        ≡ total (queued c) n s.pool.workers + (if c == b then 1 else 0)
  queued-pushed b c = omega (
    arith,
    total-update (queued c) n s.pool.workers s.pool.idx
        (record (s.pool.workers s.pool.idx) {
          tasks_queue = (s.pool.workers s.pool.idx).tasks_queue ++ b ∷ [];
        })
        inv.in_range,
    count-append c (queue s s.pool.idx) (b ∷ []),
  )

  pub add_task-eq :
      (b : ℕ) {p : ThreadPool ℕ}
      → submitted n s b < count b tasks
      → ThreadPool.add_task s.pool b ≡ some p
      → p ≡ pushed s.pool b
  add_task-eq b fresh e = cc (add_task-accepts b fresh)

  pub idx-lt : (s.pool.idx + 1) % s.pool.worker_num < n
  idx-lt = rw inv.workers (mod-lt (s.pool.idx + 1) (omega (arith, inv.in_range)))
