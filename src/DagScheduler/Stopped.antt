-- ===== src/DagScheduler/Stopped.antt =====
-- `Scheduler::~Scheduler` stops the pool of the one executor (dag_scheduler/scheduler.cpp,
-- executor.cpp): what `execute` of a later scheduler does with that pool.
use dag_executor.Common.{ℕ, ◌≡◌, ◌≢◌, refl, true, some, List, [], arith, length}
use dag_executor.Common.Int.{pos}
use dag_executor.ThreadPool
use dag_executor.ThreadPool.{ThreadPool}
use dag_executor.ThreadPool.Dispatch.{add_task-stopped}
use dag_executor.DagScheduler.{Tasks}
use dag_executor.DagScheduler.Run.{
  returned, free, Dag, Step, start_root, start_skip, start_done, finish, take, work, inform_last,
  inform, informed, count, dangle, Runs, here, later, launch,
}

-- A pool after `stop` has returned.
pub record IsStopped (p : ThreadPool ℕ) : Type 0 where
  pub stopped : p.stop ≡ true
  pub drained : (i : ℕ) → (p.workers i).tasks_queue ≡ []

pub record IsDead (left : ℕ) (s : Dag) : Type 0 where
  pub pool : IsStopped s.pool
  pub idle : (i : ℕ) → s.pc i ≡ free
  pub waits : s.wait_executed ≡ pos left
  pub open_end : s.main ≢ returned
  pub none_worked : s.worked ≡ []

stopped-same :
    (p : ThreadPool ℕ) (f : ℕ) {q : ThreadPool ℕ}
    → IsStopped p
    → ThreadPool.add_task p f ≡ some q
    → IsStopped q
stopped-same p f {q} v e = rw (← same) v
  where
    same : p ≡ q
    same = cc (add_task-stopped p f v.stopped)

Step-IsDead : {left : ℕ} {s t : Dag} → left ≢ 0 → Step s t → IsDead left s → IsDead left t
Step-IsDead {s = s} some_left (start_root {t} e root sub) d = record {
  pool = stopped-same s.pool t d.pool sub;
  idle = d.idle;
  waits = d.waits;
  open_end = λ r. cc;
  none_worked = d.none_worked;
}
Step-IsDead some_left (start_skip e waits) d = record {
  pool = d.pool;
  idle = d.idle;
  waits = d.waits;
  open_end = λ r. cc;
  none_worked = d.none_worked;
}
Step-IsDead some_left (start_done e) d = record {
  pool = d.pool;
  idle = d.idle;
  waits = d.waits;
  open_end = λ r. cc;
  none_worked = d.none_worked;
}
Step-IsDead some_left (finish e zero_left) d = ground (arith, d.waits)
Step-IsDead some_left (take i lt e front) d = ground (arith, d.pool.drained i)
Step-IsDead some_left (work i lt e) d = ground (arith, d.idle i)
Step-IsDead some_left (inform_last i lt e last sub) d = ground (arith, d.idle i)
Step-IsDead some_left (inform i lt e more) d = ground (arith, d.idle i)
Step-IsDead some_left (informed i lt e) d = ground (arith, d.idle i)
Step-IsDead some_left (count i lt e own) d = ground (arith, d.idle i)
Step-IsDead some_left (dangle i lt e not_owned) d = ground (arith, d.idle i)

Runs-IsDead :
    {left : ℕ} {s : Dag} {k : ℕ} {t : Dag} → left ≢ 0 → IsDead left s → Runs s k t → IsDead left t
Runs-IsDead some_left d here = d
Runs-IsDead some_left d (later r st) = Step-IsDead some_left st (Runs-IsDead some_left d r)

-- On a pool that has been stopped, as the destructor of an earlier scheduler leaves it, `execute`
-- of a scheduler with at least one task never returns and never runs any task's work.
pub stopped_never_returns :
    (h : Tasks) (tasks : List ℕ) (p : ThreadPool ℕ)
    → IsStopped p
    → tasks ≢ []
    → {k : ℕ} {s : Dag} → Runs (launch h tasks p) k s
    → (s.main ≢ returned) × (s.worked ≡ [])
stopped_never_returns h tasks p stopped some_tasks {s = s} r = (d.open_end, d.none_worked)
  where
    d : IsDead (length tasks) s
    d =
        Runs-IsDead (λ e. ground arith)
          (record {
            pool = stopped;
            idle = λ _. refl;
            waits = refl;
            open_end = λ e. cc;
            none_worked = refl;
          })
          r
