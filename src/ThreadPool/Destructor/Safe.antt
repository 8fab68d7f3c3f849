-- ===== src/ThreadPool/Destructor/Safe.antt =====
-- What `~ThreadPool` guarantees (thread_pool/thread_pool.cpp).
use dag_executor.Common.{ℕ, ◌≤◌, ◌<◌, ◌≡◌, ◌≢◌, arith, ℕ_discrete}
use dag_executor.ThreadPool.Loop.{
  done, returned, System, Step, work, count_over, place, notify_worker,
}
use dag_executor.ThreadPool.Shutdown.{IsOutside}
use dag_executor.ThreadPool.Destructor.{destroyed, Pool, Destroys, new, Touches}
use dag_executor.ThreadPool.Destructor.Invariant.{
  Move-inside, Destruction, deleted, joined, Destroys-Destruction,
}

-- The caller has chosen no worker.
Step-alive {ℓ} :
    {F : Type ℓ} {s t : System F} (st : Step s t) (i : ℕ)
    → ((c : ℕ) → IsOutside (s.caller c))
    → s.stopper ≡ returned
    → Touches st i
    → s.pc i ≢ done
Step-alive (work j lt mv) i out back e = ground (arith, Move-inside mv)
Step-alive (count_over j lt f) i out back e = ground arith
Step-alive (place c f free) i out back e = ground (arith, out c)
Step-alive (notify_worker f lt) i out back e = ground arith
Step-alive _ i out back e = absurd e

module _ {ℓ} {F : Type ℓ} (n size : ℕ) (pos : 0 < n) {d : Pool F}
    (r : Destroys (new F n size) d) where
  inv : Destruction n size d
  inv = Destroys-Destruction n size pos r

  -- On a pool with at least one worker, while it is destroyed and no call of `add_task` is between
  -- its test of `stop_` and its push: a step that a thread can take reads or writes no worker that
  -- has been deleted.
  pub deleted_untouched :
      {t : System F} (st : Step d.threads t) (i : ℕ)
      → ((c : ℕ) → IsOutside (d.threads.caller c))
      → Touches st i
      → d.deletes i ≡ 0
  deleted_untouched st i out e = elim (ℕ_discrete (d.deletes i) 0) [
    | yes still ↦ still
    | no gone ↦ absurd (
        Step-alive st i out (inv.back (λ s. ground (arith, inv.never i))) e
          (inv.ended i (ground (arith, inv.never i, low))))
  ]
    where
      low : deleted n d.stage ≤ joined n d.stage
      low = ground arith

  -- On a pool with at least one worker: when its destructor has come to its end, `stop` has
  -- returned, every thread has ended, and every worker has been deleted exactly once.
  pub destroyed_once :
      d.stage ≡ destroyed
      → (i : ℕ) → i < n
      → (d.deletes i ≡ 1) × (d.threads.pc i ≡ done) × (d.threads.stopper ≡ returned)
  destroyed_once e i lt =
      (ground (arith, inv.once i), ground (arith, inv.ended i), ground (arith, inv.back))
