-- ===== src/Timer/Tests.antt =====
-- A timer manager with timers due at 5 and 20, when the clock reads 10 and then 11
-- (dag_scheduler/timer.h).
use dag_executor.Common.{ℕ, ◌+◌, ◌<◌, ◌≡◌, some, ◌∷◌, arith}
use dag_executor.Common.Int.{pos}
use dag_executor.ThreadPool.{new_pool}
use dag_executor.Timer.{TimerManager, execute_timeout}
use dag_executor.Timer.Order.{IsSorted, Fired, execute_timeout_lem}
use mathlib.Core.List.{[]}

abbrev manager : TimerManager ℕ
manager = record {
  timers = (record { time = pos 5; func = 1 }) ∷ (record { time = pos 20; func = 2 }) ∷ [];
  thread_pool = new_pool 2 10;
}

manager-IsSorted : IsSorted manager.timers
manager-IsSorted = ground arith

manager-serving : manager.thread_pool.idx < manager.thread_pool.worker_num
unfolding new_pool
manager-serving = omega arith

execute_timeout_lem_example :
    (m : TimerManager ℕ) × (execute_timeout (λ r. pos (10 + r)) manager ≡ some m)
    × Fired (λ r. pos (10 + r)) 0 manager.timers manager.thread_pool m
    × IsSorted m.timers
execute_timeout_lem_example =
    execute_timeout_lem (λ r. pos (10 + r)) manager manager-serving manager-IsSorted
