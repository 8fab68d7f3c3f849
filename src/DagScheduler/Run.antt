-- ===== src/DagScheduler/Run.antt =====
-- `Scheduler::execute` (dag_scheduler/scheduler.cpp) and `Task::execute_` (dag_scheduler/task.cpp),
-- run by the workers of the executor's pool. A step is one critical section or one access.
use dag_executor.Common.{ℕ, ◌<◌, ◌≡◌, ◌≢◌, true, false, some, List, [], ◌∷◌, length, update}
use dag_executor.Common.Int.{ℤ, pos, ◌-ℤ◌}
use dag_executor.ThreadPool.{ThreadPool}
use dag_executor.ThreadPool
use dag_executor.DagScheduler.{Tasks}

-- Where the thread in `Scheduler::work_` stands: in the loop, with the tasks still to look at; in
-- the wait for `wait_executed`; past it.
pub data Main : Type 0 where
  starting : List ℕ → Main
  waiting : Main
  returned : Main

-- Where a worker of the pool stands in `Task::execute_`, with the task and, in the loop of
-- `post_run_`, the successors still to inform.
pub data Pc : Type 0 where
  free : Pc
  working : ℕ → Pc
  informing : ℕ → List ℕ → Pc
  counting : ℕ → Pc
  fault : Pc  -- `schedule_` was never set

-- `worked` is a record of the tasks whose `work` has returned, latest first; no step reads it.
pub record Dag : Type 0 where
  pub heap : Tasks
  pub wait_executed : ℤ
  pub main : Main
  pub pool : ThreadPool ℕ
  pub pc : ℕ → Pc
  pub worked : List ℕ

abbrev pub queue : Dag → ℕ → List ℕ
queue s i = (s.pool.workers i).tasks_queue

-- `execute` up to the loop of `work_`, on a pool that has nothing to do
abbrev pub launch : Tasks → List ℕ → ThreadPool ℕ → Dag
launch heap tasks pool = record {
  heap = heap;
  wait_executed = pos (length tasks);
  main = starting tasks;
  pool = pool;
  pc = λ _. free;
  worked = [];
}

-- `condition_ -= 1`
abbrev pub lower : Tasks → ℕ → Tasks
lower h t = update h t (record (h t) { condition = (h t).condition -ℤ pos 1 })

-- Worker `i` takes a function from its queue.
abbrev pub pop : ThreadPool ℕ → ℕ → List ℕ → ThreadPool ℕ
pop p i q = record p { workers = update p.workers i (record (p.workers i) { tasks_queue = q }) }

pub data Step (s : Dag) : Dag → Type 0 where
  -- the loop of `work_`
  start_root :
      {t : ℕ} {rest : List ℕ} {p : ThreadPool ℕ}
      → s.main ≡ starting (t ∷ rest)
      → (s.heap t).condition ≡ pos 0
      → ThreadPool.add_task s.pool t ≡ some p
      → Step s (record s { pool = p; main = starting rest })
  start_skip :
      {t : ℕ} {rest : List ℕ}
      → s.main ≡ starting (t ∷ rest)
      → (s.heap t).condition ≢ pos 0
      → Step s (record s { main = starting rest })
  start_done : s.main ≡ starting [] → Step s (record s { main = waiting })
  -- the wait of `work_` ends
  finish : s.main ≡ waiting → s.wait_executed ≡ pos 0 → Step s (record s { main = returned })
  -- a worker calls the function at the head of its queue, which is `execute_` of a task
  take :
      (i : ℕ) {t : ℕ} {q : List ℕ}
      → i < s.pool.worker_num
      → s.pc i ≡ free
      → queue s i ≡ t ∷ q
      → Step s (record s { pool = pop s.pool i q; pc = update s.pc i (working t) })
  -- `work` returns, and `post_run_` begins
  work :
      (i : ℕ) {t : ℕ}
      → i < s.pool.worker_num
      → s.pc i ≡ working t
      → Step s (record s {
        worked = t ∷ s.worked;
        pc = update s.pc i (informing t (s.heap t).successors);
      })
  -- a round of the loop of `post_run_`, under the successor's mutex
  inform_last :
      (i : ℕ) {t b : ℕ} {rest : List ℕ} {p : ThreadPool ℕ}
      → i < s.pool.worker_num
      → s.pc i ≡ informing t (b ∷ rest)
      → (s.heap b).condition -ℤ pos 1 ≡ pos 0
      → ThreadPool.add_task s.pool b ≡ some p
      → Step s (record s { heap = lower s.heap b; pool = p; pc = update s.pc i (informing t rest) })
  inform :
      (i : ℕ) {t b : ℕ} {rest : List ℕ}
      → i < s.pool.worker_num
      → s.pc i ≡ informing t (b ∷ rest)
      → (s.heap b).condition -ℤ pos 1 ≢ pos 0
      → Step s (record s { heap = lower s.heap b; pc = update s.pc i (informing t rest) })
  informed :
      (i : ℕ) {t : ℕ}
      → i < s.pool.worker_num
      → s.pc i ≡ informing t []
      → Step s (record s { pc = update s.pc i (counting t) })
  -- the count under the scheduler's mutex
  count :
      (i : ℕ) {t : ℕ}
      → i < s.pool.worker_num
      → s.pc i ≡ counting t
      → (s.heap t).scheduled ≡ true
      → Step s (record s { wait_executed = s.wait_executed -ℤ pos 1; pc = update s.pc i free })
  dangle :
      (i : ℕ) {t : ℕ}
      → i < s.pool.worker_num
      → s.pc i ≡ counting t
      → (s.heap t).scheduled ≡ false
      → Step s (record s { pc = update s.pc i fault })

-- `k` steps lead from the first state to the second.
pub data Runs (s : Dag) : ℕ → Dag → Type 0 where
  here : Runs s 0 s
  later : {k : ℕ} {t u : Dag} → Runs s k t → Step t u → Runs s (ℕ.suc k) u
