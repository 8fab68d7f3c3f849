-- ===== src/ThreadPool/Safety.antt =====
-- What holds of the pool's threads in every reachable state (thread_pool/thread_pool.cpp).
use dag_executor.Common.{ℕ, ◌≤◌, ◌<◌, ◌≡◌, ◌≢◌, ◌++◌, ◌⊎◌, true, [], arith, length, total-full}
use dag_executor.ThreadPool.Loop.{
  Pc, counted, done, fault, System, Reach, queue, current, init, returned,
}
use dag_executor.ThreadPool.Invariant.{Inv, over, init-Inv, Reach-Inv}

over-le-one {ℓ} : {F : Type ℓ} (p : Pc F) → over p ≤ 1
over-le-one p = ground arith

module _ {ℓ} {F : Type ℓ} (n size : ℕ) (pos : 0 < n) {s : System F}
    (r : Reach (init n size) s) where
  inv : Inv n size s
  inv = Reach-Inv (init-Inv n size pos) r

  -- On a pool with at least one worker, however the callers, the workers and a stopping thread
  -- interleave: no queue holds more than `tasks_size` functions, and each worker has run exactly
  -- the functions that it accepted, in the order of acceptance, but for the one that it is running
  -- and those still in its queue.
  pub queues_bounded_fifo :
      (i : ℕ)
      → (length (queue s i) ≤ size) × (s.accepted i ≡ s.executed i ++ current (s.pc i) ++ queue s i)
  queues_bounded_fifo i = (inv.fits i, inv.fifo i)

  -- On a pool with at least one worker none of them ever calls `front()` on an empty queue.
  pub never_faults : (i : ℕ) → s.pc i ≢ fault
  never_faults i e = ground (arith, inv.places i)

  -- On a pool with at least one worker, one that sleeps has an empty queue: a push never loses its
  -- wake-up, although only a push to an empty queue notifies.
  pub asleep-empty : (i : ℕ) → s.pc i ≡ Pc.asleep → queue s i ≡ []
  asleep-empty i e = ground (arith, inv.places i)

  -- On a pool with at least one worker, when `stop` has returned, `stop_` is set and every worker
  -- has left its loop.
  pub stop-joins :
      s.stopper ≡ returned
      → (i : ℕ) → i < n
      → (s.pool.stop ≡ true) × ((s.pc i ≡ counted) ⊎ (s.pc i ≡ done))
  stop-joins e i lt = (ground (arith, inv.stopping), ground (arith, is_over))
    where
      is_over : over (s.pc i) ≡ 1
      is_over = total-full over over-le-one n s.pc i lt (ground (arith, inv.stopping, inv.overs))
