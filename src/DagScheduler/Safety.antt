-- ===== src/DagScheduler/Safety.antt =====
-- What every interleaving guarantees of the tasks' work (dag_scheduler/scheduler.cpp, task.cpp).
use dag_executor.Common.{
  ℕ, ◌≤◌, ◌<◌, ◌≡◌, refl, List, arith, length, length-all, count, weigh, weigh-all, total, le-total,
}
use dag_executor.ThreadPool.{ThreadPool}
use dag_executor.DagScheduler.{Tasks}
use dag_executor.DagScheduler.Run.{
  Pc, working, returned, free, informing, counting, fault, Dag, Runs, launch,
}
use dag_executor.DagScheduler.Graph.{indegree, IsReady}
use dag_executor.DagScheduler.Invariant.{
  submitted, holding, uncounted, Inv, IsVacant, Runs-Inv, worked-le, length-worked-le,
}

module _ (n size : ℕ) (succ : ℕ → List ℕ) (tasks : List ℕ) {heap : Tasks}
    (g : IsReady heap succ tasks) (room : length tasks ≤ size) {pool : ThreadPool ℕ}
    (v : IsVacant n size pool) {k : ℕ} {s : Dag} (r : Runs (launch heap tasks pool) k s) where
  inv : Inv n size succ tasks s
  inv = Runs-Inv g room v r

  submitted_after :
      (b p : ℕ)
      → 0 < submitted n s b
      → 0 < count p tasks
      → 0 < count b (succ p)
      → 0 < count p s.worked
  unfolding submitted
  submitted_after b p sub mem link = omega (
    arith,
    weigh-all (λ q. count b (succ q)) s.worked tasks (worked-le inv g) all_followed p link,
  )
    where
      b_mem : 0 < count b tasks
      b_mem = g.closed p b mem link

      all_followed : indegree succ tasks b ≤ weigh (λ q. count b (succ q)) s.worked
      all_followed = ground (arith, inv.balance b b_mem, inv.due b sub)

  -- For a ready graph whose tasks all fit into one queue, on a pool with nothing to do: no task's
  -- work runs twice, and none runs that was not added to the scheduler.
  pub works_once : (b : ℕ) → count b s.worked ≤ count b tasks
  works_once = worked-le inv g

  -- For a ready graph whose tasks all fit into one queue, on a pool with nothing to do: while the
  -- work of a task runs, the work of every task that it waits for has returned, and its own has not.
  pub works_in_order :
      (i b p : ℕ)
      → i < n
      → s.pc i ≡ working b
      → 0 < count p tasks
      → 0 < count b (succ p)
      → (0 < count p s.worked) × (count b s.worked ≡ 0)
  unfolding submitted
  works_in_order i b p lt e mem link = (
    submitted_after b p (ground (arith, le-total (holding b) n s.pc i lt)) mem link,
    ground (arith, le-total (holding b) n s.pc i lt, inv.once b, g.distinct b),
  )

  -- For a ready graph whose tasks all fit into one queue, on a pool with nothing to do: when
  -- `execute` returns, the work of every task that was added has returned, once for each, and no
  -- worker of the pool is inside a task.
  pub returned_complete :
      s.main ≡ returned → (b i : ℕ) → i < n → (count b s.worked ≡ count b tasks) × (s.pc i ≡ free)
  unfolding submitted
  returned_complete e b i lt = (omega (arith, worked-le inv g b, all_in b), idle (s.pc i) refl)
    where
      none_left : (total uncounted n s.pc ≡ 0) × (length tasks ≤ length s.worked)
      none_left = ground (arith, inv.over e, inv.waits, length-worked-le inv g)

      all_in : (b : ℕ) → count b tasks ≤ count b s.worked
      all_in = length-all s.worked tasks (worked-le inv g) none_left.1

      idle : (p : Pc) → s.pc i ≡ p → p ≡ free
      idle free e = refl
      idle (working b) e = ground (arith, le-total (holding b) n s.pc i lt, inv.once b, all_in b)
      idle (informing t rest) e = ground (arith, none_left.0, le-total uncounted n s.pc i lt)
      idle (counting t) e = ground (arith, none_left.0, le-total uncounted n s.pc i lt)
      idle fault e = ground (arith, inv.places i)
