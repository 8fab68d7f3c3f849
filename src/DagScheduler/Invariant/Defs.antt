-- ===== src/DagScheduler/Invariant/Defs.antt =====
-- The invariant of a run of a graph (dag_scheduler/scheduler.cpp, task.cpp).
use dag_executor.Common.{
  ℕ, ◌+◌, ◌≤◌, ◌<◌, ◌≡◌, true, false, List, [], length, count, weigh, total, ◌==◌, if◌then◌else◌,
}
use dag_executor.Common.Int.{pos, pos_part, neg_part}
use dag_executor.ThreadPool.{Worker}
use dag_executor.DagScheduler.Run.{
  Main, starting, returned, Pc, working, informing, counting, fault, Dag,
}
use dag_executor.DagScheduler.Graph.{indegree, SuccessorsFirst}

-- the tasks that the loop of `work_` has still to look at
abbrev pub rest_of : Main → List ℕ
rest_of (starting rest) = rest
rest_of _ = []

-- how often a worker is about to run `b`
abbrev pub holding : ℕ → Pc → ℕ
holding b (working t) = if b == t then 1 else 0
holding b _ = 0

-- how often a worker has still to inform `b`
abbrev pub owing : ℕ → Pc → ℕ
owing b (informing t rest) = count b rest
owing b _ = 0

-- A worker whose task has worked and is not yet counted.
abbrev pub uncounted : Pc → ℕ
uncounted (informing t rest) = 1
uncounted (counting t) = 1
uncounted _ = 0

abbrev pub queued : ℕ → Worker ℕ → ℕ
queued b w = count b w.tasks_queue

-- how often `b` has been handed to the executor
unfoldable pub submitted : ℕ → Dag → ℕ → ℕ
submitted n s b = total (queued b) n s.pool.workers + total (holding b) n s.pc + count b s.worked

-- What a worker's place says about the tasks that have worked.
abbrev pub AtPc : (ℕ → List ℕ) → List ℕ → Pc → Type 0
AtPc succ worked (informing t rest) =
    (0 < count t worked) × ((b : ℕ) → count b rest ≤ count b (succ t))
AtPc succ worked (counting t) = 0 < count t worked
AtPc succ worked fault = ⊥
AtPc succ worked _ = Unit

pub record Inv (n size : ℕ) (succ : ℕ → List ℕ) (tasks : List ℕ) (s : Dag) : Type 0 where
  pub workers : s.pool.worker_num ≡ n
  pub in_range : s.pool.idx < n
  pub running : s.pool.stop ≡ false
  pub sizes : (i : ℕ) → (s.pool.workers i).tasks_size ≡ size
  pub links : (t : ℕ) → (s.heap t).successors ≡ succ t
  pub owned : (t : ℕ) → 0 < count t tasks → (s.heap t).scheduled ≡ true
  pub places : (i : ℕ) → AtPc succ s.worked (s.pc i)
  -- `condition_` counts the links to the task that have not been followed.
  pub nonneg : (b : ℕ) → 0 < count b tasks → neg_part (s.heap b).condition ≡ 0
  pub balance :
      (b : ℕ)
      → 0 < count b tasks
      → pos_part (s.heap b).condition + weigh (λ p. count b (succ p)) s.worked
        ≡ indegree succ tasks b + total (owing b) n s.pc
  -- Every task is submitted at most once, and only when nothing is missing.
  pub once : (b : ℕ) → submitted n s b + count b (rest_of s.main) ≤ count b tasks
  pub due : (b : ℕ) → 0 < submitted n s b → (s.heap b).condition ≡ pos 0
  pub prompt :
      (b : ℕ)
      → 0 < count b tasks
      → (s.heap b).condition ≡ pos 0
      → 0 < submitted n s b + count b (rest_of s.main)
  pub order : SuccessorsFirst succ tasks (rest_of s.main)
  pub waits_nonneg : neg_part s.wait_executed ≡ 0
  pub waits : pos_part s.wait_executed + length s.worked ≡ length tasks + total uncounted n s.pc
  pub over : s.main ≡ returned → s.wait_executed ≡ pos 0
