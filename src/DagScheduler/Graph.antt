-- ===== src/DagScheduler/Graph.antt =====
-- The graphs that `Scheduler::execute` can be trusted with (dag_scheduler/task.h, scheduler.h).
use dag_executor.Common.{ℕ, ◌≤◌, ◌<◌, ◌≡◌, true, List, [], ◌∷◌, count, weigh}
use dag_executor.Common.Int.{pos}
use dag_executor.DagScheduler.{Tasks}

-- How many of the links of `tasks` lead to `b`.
abbrev pub indegree : (ℕ → List ℕ) → List ℕ → ℕ → ℕ
indegree succ tasks b = weigh (λ p. count b (succ p)) tasks

-- Each task stands before the tasks that it waits for.
abbrev pub SuccessorsFirst : (ℕ → List ℕ) → List ℕ → List ℕ → Type 0
SuccessorsFirst succ tasks [] = Unit
SuccessorsFirst succ tasks (t ∷ rest) =
    ((p : ℕ) → 0 < count p tasks → 0 < count t (succ p) → 0 < count p rest)
    × SuccessorsFirst succ tasks rest

-- What `add_task` and `set_precede` leave when they are called once for each task and with tasks
-- of this scheduler, on tasks whose `condition_` started at 0, with successors added first.
pub record IsReady (heap : Tasks) (succ : ℕ → List ℕ) (tasks : List ℕ) : Type 0 where
  pub links : (t : ℕ) → (heap t).successors ≡ succ t
  pub distinct : (t : ℕ) → count t tasks ≤ 1
  pub closed : (t b : ℕ) → 0 < count t tasks → 0 < count b (succ t) → 0 < count b tasks
  pub owned : (t : ℕ) → 0 < count t tasks → (heap t).scheduled ≡ true
  pub conditions : (t : ℕ) → 0 < count t tasks → (heap t).condition ≡ pos (indegree succ tasks t)
  pub ordered : SuccessorsFirst succ tasks tasks
