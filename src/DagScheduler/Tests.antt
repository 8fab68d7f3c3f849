-- ===== src/DagScheduler/Tests.antt =====
-- A graph of two tasks, built by the code, and its run (dag_scheduler/main.cpp builds such ones).
use dag_executor.Common.{
  ℕ, ◌≤◌, ◌<◌, ◌≡◌, ◌≢◌, refl, ℕ_discrete, true, List, [], ◌∷◌, arith, count as count_of, ◌==◌,
  if◌then◌else◌,
}
use dag_executor.Common.Int.{pos, negsuc, ◌-ℤ◌, ◌+ℤ◌}
use dag_executor.ThreadPool
use dag_executor.ThreadPool.{ThreadPool, new_pool}
use dag_executor.DagScheduler
use dag_executor.DagScheduler.{Tasks, Scheduler, new_task, set_precede, set_precedes, new_executor}
use dag_executor.DagScheduler.Run.{
  free, working, returned, Dag, Step, start_root, start_skip, start_done, finish, take, work,
  inform_last, informed, count, Runs, here, later, launch,
}
use dag_executor.DagScheduler.Graph.{IsReady}
use dag_executor.DagScheduler.Invariant.{IsVacant}
use dag_executor.DagScheduler.Safety.{works_once, works_in_order, returned_complete}
use dag_executor.DagScheduler.Progress.{Next}
use dag_executor.DagScheduler.Links.{IsLinked, link_all, link_all_lem}
use dag_executor.DagScheduler.DoubleStart.{IsChain, chain_runs_twice}
use dag_executor.DagScheduler.Stopped.{IsStopped, stopped_never_returns}
use dag_executor.DagScheduler.Termination.{step_bound, length-Runs-le, never_stuck, can_return}

-- Task 1 waits for task 0 and is added first.
abbrev scheduler : Scheduler
unfolding new_task set_precede DagScheduler.add_task ◌+ℤ◌ ℕ_discrete
scheduler =
    DagScheduler.add_task
      (DagScheduler.add_task
        (record {
          tasks = [];
          wait_executed = pos 0;
          heap = set_precede (λ _. new_task (pos 0)) 1 0;
        })
        1)
      0

abbrev succ : ℕ → List ℕ
succ t = if t == 0 then 1 ∷ [] else []

abbrev tasks : List ℕ
tasks = 1 ∷ 0 ∷ []

scheduler-IsReady : IsReady scheduler.heap succ tasks
unfolding new_task set_precede DagScheduler.add_task ◌+ℤ◌ ℕ_discrete
scheduler-IsReady = record {
  links = λ t. ground arith;
  distinct = λ t. ground arith;
  closed = λ t b mem link. ground arith;
  owned = λ t mem. ground arith;
  conditions = λ t mem. ground arith;
  ordered = (λ p mem link. ground arith, (λ p mem link. ground arith, tt));
}

new_executor-IsVacant : IsVacant 4 10 new_executor
unfolding new_executor new_pool
new_executor-IsVacant = record {
  workers = refl;
  in_range = omega arith;
  running = refl;
  sizes = λ i. refl;
  vacant = λ i. refl;
}

-- A run of `execute` on it, up to the call of `execute_` of task 1 by worker 1.
abbrev half : (s : Dag) × Runs (launch scheduler.heap tasks new_executor) 9 s
unfolding new_task set_precede DagScheduler.add_task new_executor new_pool ThreadPool.add_task ◌+ℤ◌
    ◌-ℤ◌ ℕ_discrete
half = (
  _,
  later
      (later
        (later
          (later
            (later
              (later
                (later (later (later here (start_skip refl (λ e. cc))) (start_root refl refl refl))
                  (start_done refl))
                (take 0 (omega arith) refl refl))
              (work 0 {t = 0} (omega arith) refl))
            (inform_last 0 {t = 0} {b = 1} {rest = []} (omega arith) refl refl refl))
          (informed 0 {t = 0} (omega arith) refl))
        (count 0 {t = 0} (omega arith) refl refl))
      (take 1 (omega arith) refl refl),
)

-- The rest of it.
abbrev whole : (s : Dag) × Runs (launch scheduler.heap tasks new_executor) 13 s
unfolding new_task set_precede DagScheduler.add_task new_executor new_pool ThreadPool.add_task ◌+ℤ◌
    ◌-ℤ◌ ℕ_discrete
whole = (
  _,
  later
      (later
        (later (later (half.1) (work 1 {t = 1} (omega arith) refl))
          (informed 1 {t = 1} (omega arith) refl))
        (count 1 {t = 1} (omega arith) refl refl))
      (finish refl refl),
)

works_once_example : count_of 0 (half.0).worked ≤ count_of 0 tasks
works_once_example =
    works_once 4 10 succ tasks scheduler-IsReady (omega arith) new_executor-IsVacant (half.1) 0

half-working : (half.0).pc 1 ≡ working 1
unfolding new_task set_precede DagScheduler.add_task new_executor new_pool ThreadPool.add_task ◌+ℤ◌
    ◌-ℤ◌ ℕ_discrete
half-working = refl

works_in_order_example : (0 < count_of 0 (half.0).worked) × (count_of 1 (half.0).worked ≡ 0)
works_in_order_example =
    works_in_order 4 10 succ tasks scheduler-IsReady (omega arith) new_executor-IsVacant (half.1) 1
      1 0 (omega arith) half-working (ground arith) (ground arith)

whole-returned : (whole.0).main ≡ returned
unfolding new_task set_precede DagScheduler.add_task new_executor new_pool ThreadPool.add_task ◌+ℤ◌
    ◌-ℤ◌ ℕ_discrete
whole-returned = refl

returned_complete_example :
    (count_of 1 (whole.0).worked ≡ count_of 1 tasks) × ((whole.0).pc 1 ≡ free)
returned_complete_example =
    returned_complete 4 10 succ tasks scheduler-IsReady (omega arith) new_executor-IsVacant
      (whole.1) whole-returned 1 1 (omega arith)

length-Runs-le_example : 13 ≤ step_bound 4 succ tasks
length-Runs-le_example =
    length-Runs-le 4 10 succ tasks scheduler-IsReady (omega arith) new_executor-IsVacant (whole.1)

half-open : (half.0).main ≢ returned
unfolding new_task set_precede DagScheduler.add_task new_executor new_pool ThreadPool.add_task ◌+ℤ◌
    ◌-ℤ◌ ℕ_discrete
half-open e = cc

never_stuck_example : Next (half.0)
never_stuck_example =
    never_stuck 4 10 succ tasks scheduler-IsReady (omega arith) new_executor-IsVacant (half.1)
      half-open

can_return_example : (j : ℕ) × (t : Dag) × Runs (half.0) j t × (t.main ≡ returned)
can_return_example =
    can_return 4 10 succ tasks scheduler-IsReady (omega arith) new_executor-IsVacant (half.1)

-- Two calls of `set_precede` on tasks whose memory held 5.
link_all_lem_example :
    IsLinked (λ _. pos 5) (link_all (λ t. new_task (pos 5)) ((2, 0 ∷ 1 ∷ []) ∷ (1, 0 ∷ []) ∷ []))
link_all_lem_example = link_all_lem (λ _. pos 5) ((2, 0 ∷ 1 ∷ []) ∷ (1, 0 ∷ []) ∷ [])

-- The same two tasks, added in the other order.
wrong_way : Scheduler
wrong_way =
    DagScheduler.add_task
      (DagScheduler.add_task
        (record {
          tasks = [];
          wait_executed = pos 0;
          heap = set_precede (λ _. new_task (pos 0)) 1 0;
        })
        0)
      1

wrong_way-IsChain : IsChain 0 1 wrong_way.heap
unfolding wrong_way new_task set_precede DagScheduler.add_task ◌+ℤ◌ ℕ_discrete
wrong_way-IsChain = record {
  distinct = λ e. cc;
  first = refl;
  second = refl;
  link = refl;
  last = refl;
  owned_first = refl;
  owned_second = refl;
}

chain_runs_twice_example :
    (k : ℕ) × (s : Dag) × Runs (launch wrong_way.heap (0 ∷ 1 ∷ []) new_executor) k s
    × (s.worked ≡ 1 ∷ 1 ∷ 0 ∷ [])
    × (s.wait_executed ≡ negsuc 0)
    × ((t : Dag) → ¬ Step s t)
chain_runs_twice_example = chain_runs_twice 0 1 wrong_way.heap wrong_way-IsChain

-- The pool of the executor after `stop`.
stopped_pool : ThreadPool ℕ
stopped_pool = record new_executor { stop = true }

stopped_pool-IsStopped : IsStopped stopped_pool
unfolding stopped_pool new_executor new_pool
stopped_pool-IsStopped = record { stopped = refl; drained = λ i. refl }

-- `execute` looks at both tasks and waits.
dead : (s : Dag) × Runs (launch scheduler.heap tasks stopped_pool) 3 s
unfolding stopped_pool new_task set_precede DagScheduler.add_task new_executor new_pool
    ThreadPool.add_task ◌+ℤ◌ ℕ_discrete
dead = (
  _,
  later (later (later here (start_skip refl (λ e. cc))) (start_root refl refl refl))
      (start_done refl),
)

stopped_never_returns_example : ((dead.0).main ≢ returned) × ((dead.0).worked ≡ [])
stopped_never_returns_example =
    stopped_never_returns scheduler.heap tasks stopped_pool stopped_pool-IsStopped (λ e. cc)
      (dead.1)
