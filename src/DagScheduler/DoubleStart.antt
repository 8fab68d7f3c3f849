-- ===== src/DagScheduler/DoubleStart.antt =====
-- The loop of `Scheduler::work_` reads `condition_` while the workers already run (dag_scheduler/
-- scheduler.cpp): what happens to a graph whose tasks were added in the order of their links.
use dag_executor.Common.{ℕ, ◌≡◌, ◌≢◌, refl, [], ◌∷◌, arith, true, ℕ_discrete}
use dag_executor.Common.Int.{pos, negsuc, ◌-ℤ◌}
use dag_executor.ThreadPool
use dag_executor.DagScheduler.{Tasks, new_executor}
use dag_executor.DagScheduler.Run.{
  waiting, free, Dag, Step, queue, start_root, start_skip, start_done, finish, take, work,
  inform_last, inform, informed, count, dangle, Runs, here, later, launch,
}

-- No worker is inside a task, nothing is queued, and `wait_executed` is not 0.
pub record IsHung (s : Dag) : Type 0 where
  pub workers : (i : ℕ) → s.pc i ≡ free
  pub queues : (i : ℕ) → queue s i ≡ []
  pub main : s.main ≡ waiting
  pub count_left : s.wait_executed ≢ pos 0

hung-no_step : (s : Dag) → IsHung s → (t : Dag) → ¬ Step s t
hung-no_step s h t (start_root e root sub) = ground (arith, h.main)
hung-no_step s h t (start_skip e waits) = ground (arith, h.main)
hung-no_step s h t (start_done e) = ground (arith, h.main)
hung-no_step s h t (finish e none_left) = h.count_left none_left
hung-no_step s h t (take i lt e front) = ground (arith, h.queues i)
hung-no_step s h t (work i lt e) = ground (arith, h.workers i)
hung-no_step s h t (inform_last i lt e last sub) = ground (arith, h.workers i)
hung-no_step s h t (inform i lt e more) = ground (arith, h.workers i)
hung-no_step s h t (informed i lt e) = ground (arith, h.workers i)
hung-no_step s h t (count i lt e own) = ground (arith, h.workers i)
hung-no_step s h t (dangle i lt e not_owned) = ground (arith, h.workers i)

-- Two tasks, added first `a` and then `b`, where `b` waits for `a` alone.
pub record IsChain (a b : ℕ) (h : Tasks) : Type 0 where
  pub distinct : a ≢ b
  pub first : (h a).condition ≡ pos 0
  pub second : (h b).condition ≡ pos 1
  pub link : (h a).successors ≡ b ∷ []
  pub last : (h b).successors ≡ []
  pub owned_first : (h a).scheduled ≡ true
  pub owned_second : (h b).scheduled ≡ true

-- For such a chain there is a run of `execute` in which the work of `b` runs twice,
-- `wait_executed` ends at -1, and `execute` never returns: no thread can take another step.
pub chain_runs_twice :
    (a b : ℕ) (h : Tasks)
    → IsChain a b h
    → (k : ℕ) × (s : Dag) × Runs (launch h (a ∷ b ∷ []) new_executor) k s
      × (s.worked ≡ b ∷ b ∷ a ∷ [])
      × (s.wait_executed ≡ negsuc 0)
      × ((t : Dag) → ¬ Step s t)
unfolding new_executor ThreadPool.add_task ◌-ℤ◌ ℕ_discrete
chain_runs_twice a b h c = (
  _,
  _,
  later
      (later
        (later
          (later
            (later
              (later
                (later
                  (later
                    (later
                      (later
                        (later
                          (later
                            (later
                              (later
                                (later (later here (start_root refl c.first refl))
                                  (take 0 (omega arith) refl refl))
                                (work 0 (omega arith) refl))
                              (inform_last 0 {t = a} {b = b} {rest = []} (omega arith)
                                (ground (arith, c.link)) (ground (arith, c.second)) refl))
                            (start_root refl (ground (arith, c.second)) refl))
                          (start_done refl))
                        (informed 0 {t = a} (omega arith) refl))
                      (count 0 {t = a} (omega arith) refl (ground (arith, c.owned_first))))
                    (take 1 (omega arith) refl refl))
                  (work 1 {t = b} (omega arith) refl))
                (informed 1 {t = b} (omega arith) (ground (arith, c.last))))
              (count 1 {t = b} (omega arith) refl (ground (arith, c.owned_second))))
            (take 2 (omega arith) refl refl))
          (work 2 {t = b} (omega arith) refl))
        (informed 2 {t = b} (omega arith) (ground (arith, c.last))))
      (count 2 {t = b} (omega arith) refl (ground (arith, c.owned_second))),
  refl,
  refl,
  hung-no_step _ (record {
    workers = λ i. ground arith;
    queues = λ i. ground arith;
    main = refl;
    count_left = λ e. cc;
  }),
)
