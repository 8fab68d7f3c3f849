-- ===== src/ThreadPool/Invariant/Steps.antt =====
-- Every step of the pool's threads keeps the invariant (thread_pool/thread_pool.cpp).
use native.Mathlib.Nat.{mod-lt}
use dag_executor.Common.{
  ℕ, zero, suc, ◌+◌, ◌%◌, ◌<◌, ◌≡◌, refl, sym, ◌∙◌, inr, Bool, true, arith, length, update, total,
}
use dag_executor.ThreadPool.{new_pool}
use dag_executor.ThreadPool.Loop.{
  Pc, woken, leaving, counted, done, Caller, out, checked, chosen, loaded, Stopper, flagged, System,
  Step, work, count_over, notify_over, reject, offer, choose, place, load, store, flag,
  begin_notify, notify_worker, end_notify, all_over, not_over, block_stop, spurious_stop, Reach,
  here, later, queue, init,
}
use dag_executor.ThreadPool.Invariant.Defs.{AtPc, AtCaller, AtStopper, over, Inv}
use dag_executor.ThreadPool.Invariant.Workers.{
  work-Inv, count_over-Inv, place-Inv, notify_over-Inv, notify_worker-Inv,
}

module _ {ℓ} {F : Type ℓ} {n size : ℕ} {s : System F} (inv : Inv n size s) where
  open inv use {fits, fifo, places, overs}

  -- A caller moves on.
  caller-Inv :
      (c : ℕ) (a : Caller F) → AtCaller n a → Inv n size (record s { caller = update s.caller c a })
  caller-Inv c a ok = record {
    workers = inv.workers;
    sizes = inv.sizes;
    in_range = inv.in_range;
    callers = λ j. ground (arith, inv.callers j);
    fits = fits;
    fifo = fifo;
    places = places;
    overs = overs;
    stopping = inv.stopping;
  }

  store-Inv :
      (c v : ℕ)
      → v < n
      → Inv n size (record s {
        pool = record (s.pool) { idx = (v + 1) % s.pool.worker_num };
        caller = update s.caller c out;
      })
  store-Inv c v lt = record {
    workers = inv.workers;
    sizes = inv.sizes;
    in_range = ground (arith, inv.workers, mod-lt (v + 1) {m = n} (omega arith));
    callers = λ j. ground (arith, inv.callers j);
    fits = fits;
    fifo = fifo;
    places = places;
    overs = overs;
    stopping = inv.stopping;
  }

  stop-AtPc : (stop : Bool) (k : ℕ) (p : Pc F) → AtPc stop k p → AtPc true k p
  stop-AtPc stop k Pc.testing h = refl
  stop-AtPc stop k woken h = inr refl
  stop-AtPc stop k leaving h = refl
  stop-AtPc stop k counted h = refl
  stop-AtPc stop k done h = refl
  stop-AtPc stop k _ h = h

  flag-Inv : Inv n size (record s { pool = record (s.pool) { stop = true }; stopper = flagged })
  flag-Inv = record {
    workers = inv.workers;
    sizes = inv.sizes;
    in_range = inv.in_range;
    callers = inv.callers;
    fits = fits;
    fifo = fifo;
    places = λ j. stop-AtPc s.pool.stop (length (queue s j)) (s.pc j) (places j);
    overs = overs;
    stopping = refl;
  }

  stopper-Inv :
      (p : Stopper)
      → AtStopper s.pool.stop s.pool.stop_num n p
      → Inv n size (record s { stopper = p })
  stopper-Inv p ok = record {
    workers = inv.workers;
    sizes = inv.sizes;
    in_range = inv.in_range;
    callers = inv.callers;
    fits = fits;
    fifo = fifo;
    places = places;
    overs = overs;
    stopping = ok;
  }

-- No step of any thread breaks the invariant.
pub Step-Inv {ℓ} :
    {F : Type ℓ} {n size : ℕ} {s t : System F} → Step s t → Inv n size s → Inv n size t
Step-Inv (work i lt mv) inv = work-Inv inv i (omega (arith, inv.workers)) mv
Step-Inv (count_over i lt e) inv = count_over-Inv inv i (omega (arith, inv.workers)) e
Step-Inv (notify_over i lt e) inv = notify_over-Inv inv i (omega (arith, inv.workers)) e
Step-Inv (reject c e on) inv = inv
Step-Inv (offer c f e off) inv = caller-Inv inv c (checked f) tt
Step-Inv (choose c {f} e) inv = caller-Inv inv c (chosen f _) inv.in_range
Step-Inv (place c e free) inv = place-Inv inv c e (ground (arith, inv.callers c)) free
Step-Inv (load c e) inv = caller-Inv inv c (loaded _) inv.in_range
Step-Inv (store c {v} e) inv = store-Inv inv c v (ground (arith, inv.callers c))
Step-Inv (flag e) inv = flag-Inv inv
Step-Inv (begin_notify e) inv = stopper-Inv inv _ (ground (arith, inv.stopping))
Step-Inv (notify_worker {k} e lt) inv = notify_worker-Inv inv k e (omega (arith, inv.workers))
Step-Inv (end_notify e le) inv = stopper-Inv inv _ (ground (arith, inv.stopping))
Step-Inv (all_over e all) inv = stopper-Inv inv _ (ground (arith, inv.stopping), all ∙ inv.workers)
Step-Inv (not_over e some_left) inv = stopper-Inv inv _ (ground (arith, inv.stopping))
Step-Inv (block_stop e) inv = stopper-Inv inv _ (ground (arith, inv.stopping))
Step-Inv (spurious_stop e) inv = stopper-Inv inv _ (ground (arith, inv.stopping))

total-init {ℓ} : (F : Type ℓ) (n : ℕ) → total (over {F = F}) n (λ _. Pc.head) ≡ 0
unfolding total
total-init F zero = refl
total-init F (suc n) = omega (arith, total-init F n)

-- `ThreadPool(worker_num, tasks_size)` starts in the invariant.
pub init-Inv {ℓ} : {F : Type ℓ} (n size : ℕ) → 0 < n → Inv n size (init {F = F} n size)
unfolding new_pool
init-Inv {F} n size pos = record {
  workers = refl;
  sizes = λ _. refl;
  in_range = pos;
  callers = λ _. tt;
  fits = λ _. omega arith;
  fifo = λ _. refl;
  places = λ _. tt;
  overs = sym (total-init F n);
  stopping = refl;
}

pub Reach-Inv {ℓ} :
    {F : Type ℓ} {n size : ℕ} {s t : System F} → Inv n size s → Reach s t → Inv n size t
Reach-Inv inv here = inv
Reach-Inv inv (later r st) = Step-Inv st (Reach-Inv inv r)
