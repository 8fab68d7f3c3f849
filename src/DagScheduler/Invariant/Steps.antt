-- ===== src/DagScheduler/Invariant/Steps.antt =====
-- Every step of `Scheduler::work_` and of a worker in `Task::execute_` keeps the invariant
-- (dag_scheduler/scheduler.cpp, task.cpp).
use dag_executor.Common.{
  ℕ, ◌+◌, ◌≤◌, ◌<◌, ◌≡◌, some, List, ◌∷◌, arith, length, count, update, total, total-update,
}
use dag_executor.Common.Int.{pos}
use dag_executor.ThreadPool
use dag_executor.ThreadPool.{ThreadPool}
use dag_executor.DagScheduler.{Tasks}
use dag_executor.DagScheduler.Run.{
  Main, starting, returned, free, working, informing, Dag, queue, pop,
}
use dag_executor.DagScheduler.Graph.{SuccessorsFirst, IsReady}
use dag_executor.DagScheduler.Invariant.Defs.{
  rest_of, holding, owing, uncounted, queued, submitted, Inv,
}
use dag_executor.DagScheduler.Invariant.Pool.{add_task-eq, queued-pushed, idx-lt}
use dag_executor.DagScheduler.Invariant.Facts.{AtPc-grow, AtPc-update}

module _ {n size : ℕ} {succ : ℕ → List ℕ} {tasks : List ℕ} {s : Dag} (inv : Inv n size succ tasks s)
    {heap : Tasks} (g : IsReady heap succ tasks) (room : length tasks ≤ size) where
  -- The loop of `work_` submits a task.
  pub start_root-Inv :
      {t : ℕ} {rest : List ℕ} {p : ThreadPool ℕ}
      → s.main ≡ starting (t ∷ rest)
      → (s.heap t).condition ≡ pos 0
      → ThreadPool.add_task s.pool t ≡ some p
      → Inv n size succ tasks (record s { pool = p; main = starting rest })
  unfolding submitted
  start_root-Inv {t} {rest} {p} e root sub = rw (add_task-eq inv room t fresh sub) (record {
    workers = inv.workers;
    in_range = idx-lt inv room;
    running = inv.running;
    sizes = λ i. ground (arith, inv.sizes i);
    links = inv.links;
    owned = inv.owned;
    places = inv.places;
    nonneg = inv.nonneg;
    balance = inv.balance;
    once = λ b. ground (arith, inv.once b, queued-pushed inv room t b);
    due = λ b. ground (arith, inv.due b, queued-pushed inv room t b);
    prompt = λ b. ground (arith, inv.prompt b, queued-pushed inv room t b);
    order = ground (arith, inv.order);
    waits_nonneg = inv.waits_nonneg;
    waits = inv.waits;
    over = λ r. cc;
  })
    where
      fresh : submitted n s t < count t tasks
      fresh = ground (arith, inv.once t)

  -- The loop of `work_` goes on to the tasks of `m` without submitting one.
  pub main-Inv :
      (m : Main)
      → ((b : ℕ) → count b (rest_of m) ≤ count b (rest_of s.main))
      → ((b : ℕ) → (s.heap b).condition ≡ pos 0 → count b (rest_of s.main) ≡ count b (rest_of m))
      → SuccessorsFirst succ tasks (rest_of m)
      → (m ≡ returned → s.wait_executed ≡ pos 0)
      → Inv n size succ tasks (record s { main = m })
  unfolding submitted
  main-Inv m fewer same order over = record {
    workers = inv.workers;
    in_range = inv.in_range;
    running = inv.running;
    sizes = inv.sizes;
    links = inv.links;
    owned = inv.owned;
    places = inv.places;
    nonneg = inv.nonneg;
    balance = inv.balance;
    once = λ b. omega (arith, inv.once b, fewer b);
    due = inv.due;
    prompt = λ b mem e. omega (arith, inv.prompt b mem e, same b e);
    order = order;
    waits_nonneg = inv.waits_nonneg;
    waits = inv.waits;
    over = over;
  }

  pub take-Inv :
      (i : ℕ) {t : ℕ} {q : List ℕ}
      → i < n
      → s.pc i ≡ free
      → queue s i ≡ t ∷ q
      → Inv n size succ tasks (record s { pool = pop s.pool i q; pc = update s.pc i (working t) })
  unfolding submitted
  take-Inv i {t} {q} lt e front = record {
    workers = inv.workers;
    in_range = inv.in_range;
    running = inv.running;
    sizes = λ j. ground (arith, inv.sizes j);
    links = inv.links;
    owned = inv.owned;
    places = λ j. ground (arith, inv.places j);
    nonneg = inv.nonneg;
    balance = λ b. ground (arith, inv.balance b, total-update (owing b) n s.pc i (working t) lt);
    once = λ b. ground (arith, inv.once b, taken b);
    due = λ b. ground (arith, inv.due b, taken b);
    prompt = λ b. ground (arith, inv.prompt b, taken b);
    order = inv.order;
    waits_nonneg = inv.waits_nonneg;
    waits = ground (arith, inv.waits, total-update uncounted n s.pc i (working t) lt);
    over = inv.over;
  }
    where
      taken :
          (b : ℕ)
          → total (queued b) n (pop s.pool i q).workers
              + total (holding b) n (update s.pc i (working t))
            ≡ total (queued b) n s.pool.workers + total (holding b) n s.pc
      taken b = ground (
        arith,
        total-update (queued b) n s.pool.workers i (record (s.pool.workers i) { tasks_queue = q })
            lt,
        total-update (holding b) n s.pc i (working t) lt,
      )

  pub work-Inv :
      (i : ℕ) {t : ℕ}
      → i < n
      → s.pc i ≡ working t
      → Inv n size succ tasks (record s {
        worked = t ∷ s.worked;
        pc = update s.pc i (informing t (s.heap t).successors);
      })
  unfolding submitted
  work-Inv i {t} lt e = rw (inv.links t) (record {
    workers = inv.workers;
    in_range = inv.in_range;
    running = inv.running;
    sizes = inv.sizes;
    links = inv.links;
    owned = inv.owned;
    places =
        AtPc-update succ (t ∷ s.worked) s.pc i (informing t (succ t))
          (λ j. AtPc-grow succ s.worked t (s.pc j) (inv.places j)) (ground arith, λ b. omega arith);
    nonneg = inv.nonneg;
    balance = λ b.
        ground (arith, inv.balance b, total-update (owing b) n s.pc i (informing t (succ t)) lt);
    once = λ b. ground (arith, inv.once b, worked b);
    due = λ b. ground (arith, inv.due b, worked b);
    prompt = λ b. ground (arith, inv.prompt b, worked b);
    order = inv.order;
    waits_nonneg = inv.waits_nonneg;
    waits = ground (arith, inv.waits, total-update uncounted n s.pc i (informing t (succ t)) lt);
    over = inv.over;
  })
    where
      worked :
          (b : ℕ)
          → total (holding b) n (update s.pc i (informing t (succ t))) + count b (t ∷ s.worked)
            ≡ total (holding b) n s.pc + count b s.worked
      worked b = ground (arith, total-update (holding b) n s.pc i (informing t (succ t)) lt)
