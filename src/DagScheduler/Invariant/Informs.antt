-- ===== src/DagScheduler/Invariant/Informs.antt =====
-- The rounds of the loop of `Task::post_run_` and its count keep the invariant
-- (dag_scheduler/task.cpp).
use dag_executor.Common.{
  ℕ, ◌+◌, ◌≤◌, ◌<◌, ◌≡◌, ◌≢◌, some, List, [], ◌∷◌, arith, length, count, update, total,
  total-update, ◌==◌, if◌then◌else◌,
}
use dag_executor.Common.Int.{pos, ◌-ℤ◌}
use dag_executor.ThreadPool
use dag_executor.ThreadPool.{ThreadPool}
use dag_executor.ThreadPool.Dispatch.{pushed}
use dag_executor.DagScheduler.{Tasks}
use dag_executor.DagScheduler.Run.{free, informing, counting, Dag, lower}
use dag_executor.DagScheduler.Graph.{IsReady}
use dag_executor.DagScheduler.Invariant.Defs.{
  holding, owing, uncounted, queued, submitted, AtPc, Inv,
}
use dag_executor.DagScheduler.Invariant.Pool.{add_task-eq, queued-pushed, idx-lt}
use dag_executor.DagScheduler.Invariant.Facts.{
  AtPc-update, informed-mem, condition-pos, not-submitted, not-rest, waits-pos, place,
}

module _ {n size : ℕ} {succ : ℕ → List ℕ} {tasks : List ℕ} {s : Dag} (inv : Inv n size succ tasks s)
    {heap : Tasks} (g : IsReady heap succ tasks) (room : length tasks ≤ size) where
  -- Worker `i` informs `b`, which is not the last thing that `b` waits for.
  pub inform-Inv :
      (i : ℕ) {t b : ℕ} {rest : List ℕ}
      → i < n
      → s.pc i ≡ informing t (b ∷ rest)
      → (s.heap b).condition -ℤ pos 1 ≢ pos 0
      → Inv n size succ tasks
          (record s { heap = lower s.heap b; pc = update s.pc i (informing t rest) })
  unfolding submitted ◌-ℤ◌
  inform-Inv i {t} {b} {rest} lt e more = record {
    workers = inv.workers;
    in_range = inv.in_range;
    running = inv.running;
    sizes = inv.sizes;
    links = λ c. ground (arith, inv.links c);
    owned = λ c. ground (arith, inv.owned c);
    places =
        AtPc-update succ s.worked s.pc i (informing t rest) inv.places
          ((place inv g i lt e).0, λ c. omega (arith, (place inv g i lt e).1 c));
    nonneg = λ c. ground (arith, inv.nonneg c, condition-pos inv g i lt e);
    balance = λ c. ground (
      arith,
      inv.balance c,
      inv.nonneg c,
      condition-pos inv g i lt e,
      total-update (owing c) n s.pc i (informing t rest) lt,
    );
    once = λ c. ground (arith, inv.once c, held c);
    due = λ c. ground (arith, inv.due c, held c, not-submitted inv g i lt e);
    prompt = λ c. ground (arith, inv.prompt c, held c);
    order = inv.order;
    waits_nonneg = inv.waits_nonneg;
    waits = ground (arith, inv.waits, total-update uncounted n s.pc i (informing t rest) lt);
    over = inv.over;
  }
    where
      held :
          (c : ℕ)
          → total (holding c) n (update s.pc i (informing t rest)) ≡ total (holding c) n s.pc
      held c = ground (arith, total-update (holding c) n s.pc i (informing t rest) lt)

  -- Worker `i` informs `b`, which has waited for nothing else, and submits it.
  pub inform_last-Inv :
      (i : ℕ) {t b : ℕ} {rest : List ℕ} {p : ThreadPool ℕ}
      → i < n
      → s.pc i ≡ informing t (b ∷ rest)
      → (s.heap b).condition -ℤ pos 1 ≡ pos 0
      → ThreadPool.add_task s.pool b ≡ some p
      → Inv n size succ tasks
          (record s { heap = lower s.heap b; pool = p; pc = update s.pc i (informing t rest) })
  unfolding submitted ◌-ℤ◌
  inform_last-Inv i {t} {b} {rest} {p} lt e last sub =
      rw (add_task-eq inv room b fresh sub) (record {
        workers = inv.workers;
        in_range = idx-lt inv room;
        running = inv.running;
        sizes = λ j. ground (arith, inv.sizes j);
        links = λ c. ground (arith, inv.links c);
        owned = λ c. ground (arith, inv.owned c);
        places =
            AtPc-update succ s.worked s.pc i (informing t rest) inv.places
              ((place inv g i lt e).0, λ c. omega (arith, (place inv g i lt e).1 c));
        nonneg = λ c. ground (arith, inv.nonneg c, last);
        balance = λ c. ground (
          arith,
          inv.balance c,
          inv.nonneg c,
          condition-pos inv g i lt e,
          total-update (owing c) n s.pc i (informing t rest) lt,
        );
        once = λ c.
            ground
              (arith, inv.once c, held c, not-submitted inv g i lt e, not-rest inv g i lt e, mem);
        due = λ c. ground (arith, inv.due c, held c, last);
        prompt = λ c. ground (arith, inv.prompt c, held c);
        order = inv.order;
        waits_nonneg = inv.waits_nonneg;
        waits = ground (arith, inv.waits, total-update uncounted n s.pc i (informing t rest) lt);
        over = inv.over;
      })
    where
      mem : 0 < count b tasks
      mem = informed-mem inv g i lt e

      fresh : submitted n s b < count b tasks
      fresh = omega (arith, mem, not-submitted inv g i lt e)

      held :
          (c : ℕ)
          → total (queued c) n (pushed s.pool b).workers
              + total (holding c) n (update s.pc i (informing t rest))
            ≡ total (queued c) n s.pool.workers
              + total (holding c) n s.pc
              + (if c == b then 1 else 0)
      held c = ground (
        arith,
        queued-pushed inv room b c,
        total-update (holding c) n s.pc i (informing t rest) lt,
      )

  -- A worker leaves the loop of `post_run_`, or has counted its task.
  pub place-Inv :
      (i : ℕ) {t : ℕ}
      → i < n
      → s.pc i ≡ informing t []
      → Inv n size succ tasks (record s { pc = update s.pc i (counting t) })
  unfolding submitted
  place-Inv i {t} lt e = record {
    workers = inv.workers;
    in_range = inv.in_range;
    running = inv.running;
    sizes = inv.sizes;
    links = inv.links;
    owned = inv.owned;
    places =
        AtPc-update succ s.worked s.pc i (counting t) inv.places
          (let h : AtPc succ s.worked (informing t []) = rw e at (inv.places i) in h.0);
    nonneg = inv.nonneg;
    balance = λ b. ground (arith, inv.balance b, total-update (owing b) n s.pc i (counting t) lt);
    once = λ b. ground (arith, inv.once b, total-update (holding b) n s.pc i (counting t) lt);
    due = λ b. ground (arith, inv.due b, total-update (holding b) n s.pc i (counting t) lt);
    prompt = λ b. ground (arith, inv.prompt b, total-update (holding b) n s.pc i (counting t) lt);
    order = inv.order;
    waits_nonneg = inv.waits_nonneg;
    waits = ground (arith, inv.waits, total-update uncounted n s.pc i (counting t) lt);
    over = inv.over;
  }

  pub count-Inv :
      (i : ℕ) {t : ℕ}
      → i < n
      → s.pc i ≡ counting t
      → Inv n size succ tasks
          (record s { wait_executed = s.wait_executed -ℤ pos 1; pc = update s.pc i free })
  unfolding submitted ◌-ℤ◌
  count-Inv i {t} lt e = record {
    workers = inv.workers;
    in_range = inv.in_range;
    running = inv.running;
    sizes = inv.sizes;
    links = inv.links;
    owned = inv.owned;
    places = AtPc-update succ s.worked s.pc i free inv.places tt;
    nonneg = inv.nonneg;
    balance = λ b. ground (arith, inv.balance b, total-update (owing b) n s.pc i free lt);
    once = λ b. ground (arith, inv.once b, total-update (holding b) n s.pc i free lt);
    due = λ b. ground (arith, inv.due b, total-update (holding b) n s.pc i free lt);
    prompt = λ b. ground (arith, inv.prompt b, total-update (holding b) n s.pc i free lt);
    order = inv.order;
    waits_nonneg = ground (arith, inv.waits_nonneg, waits-pos inv g i lt e);
    waits = ground (
      arith,
      inv.waits,
      inv.waits_nonneg,
      waits-pos inv g i lt e,
      total-update uncounted n s.pc i free lt,
    );
    over = λ r. ground (arith, inv.over r, waits-pos inv g i lt e);
  }
