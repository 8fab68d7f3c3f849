-- ===== src/DagScheduler/Invariant/Runs.antt =====
-- From the call of `Scheduler::execute` on, every reachable state has the invariant.
use dag_executor.Common.{
  ℕ, ◌+◌, ◌≤◌, ◌<◌, ◌≡◌, refl, false, List, [], arith, length, total, total-zero,
}
use dag_executor.ThreadPool.{ThreadPool}
use dag_executor.DagScheduler.{Tasks}
use dag_executor.DagScheduler.Run.{
  returned, waiting, starting, free, Dag, Step, start_root, start_skip, start_done, finish, take,
  work, inform_last, inform, informed, count as count_step, dangle, Runs, here, later, launch,
}
use dag_executor.DagScheduler.Graph.{IsReady}
use dag_executor.DagScheduler.Invariant.Defs.{submitted, queued, holding, owing, uncounted, Inv}
use dag_executor.DagScheduler.Invariant.Facts.{worked-le}
use dag_executor.DagScheduler.Invariant.Steps.{start_root-Inv, main-Inv, take-Inv, work-Inv}
use dag_executor.DagScheduler.Invariant.Informs.{inform-Inv, inform_last-Inv, place-Inv, count-Inv}

-- The executor's pool, running with nothing in its queues.
pub record IsVacant (n size : ℕ) (p : ThreadPool ℕ) : Type 0 where
  pub workers : p.worker_num ≡ n
  pub in_range : p.idx < n
  pub running : p.stop ≡ false
  pub sizes : (i : ℕ) → (p.workers i).tasks_size ≡ size
  pub vacant : (i : ℕ) → (p.workers i).tasks_queue ≡ []

module _ {n size : ℕ} {succ : ℕ → List ℕ} {tasks : List ℕ} {heap : Tasks}
    (g : IsReady heap succ tasks) (room : length tasks ≤ size) where
  pub Step-Inv : {s t : Dag} → Step s t → Inv n size succ tasks s → Inv n size succ tasks t
  Step-Inv (start_root e root sub) inv = start_root-Inv inv g room e root sub
  Step-Inv {s} (start_skip {t} {rest} e waits) inv =
      main-Inv inv g room (starting rest) (λ b. ground arith) (λ b h. ground arith)
        (ground (arith, inv.order)) (λ r. cc)
  Step-Inv (start_done e) inv =
      main-Inv inv g room waiting (λ b. ground arith) (λ b h. ground arith) tt (λ r. cc)
  Step-Inv (finish e zero_left) inv =
      main-Inv inv g room returned (λ b. ground arith) (λ b h. ground arith) tt (λ r. zero_left)
  Step-Inv (take i lt e front) inv = take-Inv inv g room i (omega (arith, inv.workers)) e front
  Step-Inv (work i lt e) inv = work-Inv inv g room i (omega (arith, inv.workers)) e
  Step-Inv (inform_last i lt e last sub) inv =
      inform_last-Inv inv g room i (omega (arith, inv.workers)) e last sub
  Step-Inv (inform i lt e more) inv = inform-Inv inv g room i (omega (arith, inv.workers)) e more
  Step-Inv (informed i lt e) inv = place-Inv inv g room i (omega (arith, inv.workers)) e
  Step-Inv (count_step i lt e own) inv = count-Inv inv g room i (omega (arith, inv.workers)) e
  Step-Inv (dangle i {t} lt e not_owned) inv =
      ground (arith, inv.owned t, inv.places i, worked-le inv g t)

  pub launch-Inv :
      {pool : ThreadPool ℕ} → IsVacant n size pool → Inv n size succ tasks (launch heap tasks pool)
  unfolding submitted
  launch-Inv {pool} v = record {
    workers = v.workers;
    in_range = v.in_range;
    running = v.running;
    sizes = v.sizes;
    links = g.links;
    owned = g.owned;
    places = λ _. tt;
    nonneg = λ b mem. ground (arith, g.conditions b);
    balance =
        λ b mem. ground (arith, g.conditions b, total-zero (owing b) n (λ _. free) (λ _. refl));
    once = λ b. omega (arith, none_submitted b);
    due = λ b h. absurd (omega (arith, none_submitted b));
    prompt = λ b mem e. omega (arith, none_submitted b);
    order = g.ordered;
    waits_nonneg = refl;
    waits = omega (arith, total-zero uncounted n (λ _. free) (λ _. refl));
    over = λ r. cc;
  }
    where
      none_submitted :
          (b : ℕ) → total (queued b) n pool.workers + total (holding b) n (λ _. free) ≡ 0
      none_submitted b = omega (
        arith,
        total-zero (queued b) n pool.workers (λ i. rw (v.vacant i)),
        total-zero (holding b) n (λ _. free) (λ _. refl),
      )

  pub Runs-Inv :
      {pool : ThreadPool ℕ} {k : ℕ} {s : Dag}
      → IsVacant n size pool
      → Runs (launch heap tasks pool) k s
      → Inv n size succ tasks s
  Runs-Inv v here = launch-Inv v
  Runs-Inv v (later r st) = Step-Inv st (Runs-Inv v r)
