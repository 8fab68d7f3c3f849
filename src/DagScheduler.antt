-- ===== src/DagScheduler.antt =====
-- dag_scheduler/task.h, task.cpp, scheduler.h, scheduler.cpp, executor.cpp: the tasks, the graph
-- that links them, and the scheduler and executor that hold them. A task is named by its address,
-- a number; what `work` does is not part of the model, only when it is called.
pub mod Run
pub mod Graph
pub mod Invariant
pub mod Links
pub mod DoubleStart
pub mod Stopped
pub mod Safety
pub mod Progress
pub mod Termination
mod Tests
use dag_executor.Common.{ℕ, Bool, true, false, List, [], ◌∷◌, ◌++◌, update}
use dag_executor.Common.Int.{ℤ, pos, ◌+ℤ◌}
use dag_executor.ThreadPool.{ThreadPool, new_pool}

-- `class Task`. `scheduled` says whether `schedule_` has been set to the scheduler.
pub record Task : Type 0 where
  pub precedes : List ℕ
  pub successors : List ℕ
  pub scheduled : Bool
  pub condition : ℤ

abbrev pub Tasks : Type 0
Tasks = ℕ → Task

-- `Task::Task`. The constructor leaves `condition_` uninitialised: it starts with what the memory
-- held.
unfoldable pub new_task : ℤ → Task
new_task memory = record { precedes = []; successors = []; scheduled = false; condition = memory }

-- `Task::set_precede(Task*)` on `this`: its three updates, in their order.
unfoldable pub set_precede : Tasks → ℕ → ℕ → Tasks
set_precede h this pre_task =
    let h1 : Tasks =
      update h this (record (h this) { precedes = (h this).precedes ++ pre_task ∷ [] }) in
    let h2 : Tasks =
      update h1 pre_task
        (record (h1 pre_task) { successors = (h1 pre_task).successors ++ this ∷ [] }) in
    update h2 this (record (h2 this) { condition = (h2 this).condition +ℤ pos 1 })

-- `Task::set_precede(std::vector<Task*>)`
unfoldable pub set_precedes : Tasks → ℕ → List ℕ → Tasks
set_precedes h this [] = h
set_precedes h this (p ∷ pre_tasks) = set_precedes (set_precede h this p) this pre_tasks

-- `class Scheduler`, without its mutex and condition variable; `heap` holds the tasks.
pub record Scheduler : Type 0 where
  pub tasks : List ℕ
  pub wait_executed : ℤ
  pub heap : Tasks

-- `Scheduler::add_task`
unfoldable pub add_task : Scheduler → ℕ → Scheduler
add_task s t = record s {
  tasks = s.tasks ++ t ∷ [];
  heap = update s.heap t (record (s.heap t) { scheduled = true });
}

-- `Executor::Executor`: the pool of the single executor.
unfoldable pub new_executor : ThreadPool ℕ
unfolding new_pool
new_executor = new_pool 4 10
