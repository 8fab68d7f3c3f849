-- ===== src/ThreadPool/Invariant/Workers.antt =====
-- The steps of the workers, and those that wake or fill them, keep the invariant
-- (thread_pool/thread_pool.cpp).
use mathlib.Core.List.{append_assoc}
use dag_executor.Common.{
  ℕ, suc, ◌+◌, ◌≤◌, ◌<◌, ◌≡◌, ◌≢◌, sym, ap, ◌∙◌, Bool, false, List, ◌∷◌, [], ◌++◌, arith, length,
  length-append, update, total, total-update, total-full, ◌==◌, if◌then◌else◌,
}
use dag_executor.ThreadPool.{worker_add_task}
use dag_executor.ThreadPool.Loop.{
  Pc, leaving, counted, done, chosen, notifying, System, Move, queue, current, moved, holds_lock,
  notify, notify_stopper, place_in,
}
use dag_executor.ThreadPool.Invariant.Defs.{AtPc, over, Inv}
use dag_executor.ThreadPool.Invariant.Moves.{Move-fifo, Move-AtPc, Move-length, Move-over}

module _ {ℓ} {F : Type ℓ} {n size : ℕ} {s : System F} (inv : Inv n size s) where
  open inv use {fits, fifo, places, overs}

  moved-fifo :
      (i : ℕ) {q : List F} {p : Pc F}
      → Move s.pool.stop (queue s i) (s.pc i) q p
      → s.accepted i ≡ s.executed i ++ current (s.pc i) ++ current p ++ q
  moved-fifo i {q} {p} mv =
      fifo i
      ∙ ap (λ r. s.executed i ++ current (s.pc i) ++ r) (Move-fifo mv)
      ∙ sym (append_assoc (s.executed i ++ current (s.pc i)) (current p) q)

  pub work-Inv :
      (i : ℕ) {q : List F} {p : Pc F}
      → i < n
      → Move s.pool.stop (queue s i) (s.pc i) q p
      → Inv n size (moved s i q p)
  work-Inv i {q} {p} lt mv = record {
    workers = inv.workers;
    sizes = λ j. ground (arith, inv.sizes j);
    in_range = inv.in_range;
    callers = inv.callers;
    fits = λ j. ground (arith, fits j, fits i, Move-length mv);
    fifo = λ j. ground (arith, fifo j, moved-fifo i mv);
    places = λ j. ground (arith, places j, Move-AtPc mv (places i));
    overs = omega (arith, overs, total-update over n s.pc i p lt, Move-over mv);
    stopping = inv.stopping;
  }

  -- The count of the workers that are over, after a step of worker `i`.
  overs-update :
      (i : ℕ) (p : Pc F)
      → i < n
      → total over n (update s.pc i p) + over (s.pc i) ≡ s.pool.stop_num + over p
  overs-update i p lt = omega (arith, overs, total-update over n s.pc i p lt)

  over-le-one : (p : Pc F) → over p ≤ 1
  over-le-one p = ground arith

  -- Not every worker is over while worker `i` leaves.
  leaving-not_all : (i : ℕ) → i < n → s.pc i ≡ leaving → s.pool.stop_num ≢ n
  leaving-not_all i lt e all =
      ground (arith, total-full over over-le-one n s.pc i lt (sym overs ∙ all))

  pub count_over-Inv :
      (i : ℕ)
      → i < n
      → s.pc i ≡ leaving
      → Inv n size (record s {
        pool = record (s.pool) { stop_num = s.pool.stop_num + 1 };
        pc = update s.pc i counted;
      })
  count_over-Inv i lt e = record {
    workers = inv.workers;
    sizes = inv.sizes;
    in_range = inv.in_range;
    callers = inv.callers;
    fits = fits;
    fifo = λ j. ground (arith, fifo j);
    places = λ j. ground (arith, places j, places i);
    overs = ground (arith, overs-update i counted lt);
    stopping = ground (arith, inv.stopping, leaving-not_all i lt e);
  }

  -- A worker that was asleep holds nothing, and wakes at the predicate of its wait.
  notify-AtPc : (stop : Bool) (k : ℕ) (p : Pc F) → AtPc stop k p → AtPc stop k (notify p)
  notify-AtPc stop k Pc.asleep h = tt
  notify-AtPc stop k _ h = h

  current-notify : (p : Pc F) → current (notify p) ≡ current p
  current-notify p = ground arith

  over-notify : (p : Pc F) → over (notify p) ≡ over p
  over-notify p = ground arith

  place-AtPc :
      (c : ℕ) (f : F) (k : ℕ)
      → holds_lock (s.pc k) ≡ false
      → (j : ℕ)
      → let t = place_in s c f k (worker_add_task (s.pool.workers k) f) in
        AtPc t.pool.stop (length (queue t j)) (t.pc j)
  unfolding worker_add_task
  place-AtPc c f k free j = ground (
    arith,
    places j,
    notify-AtPc s.pool.stop (length (queue s k)) (s.pc k),
    length-append (queue s k) (f ∷ []),
  )

  pub place-Inv :
      (c : ℕ) {f : F} {k : ℕ}
      → s.caller c ≡ chosen f k
      → k < n
      → holds_lock (s.pc k) ≡ false
      → Inv n size (place_in s c f k (worker_add_task (s.pool.workers k) f))
  unfolding worker_add_task
  place-Inv c {f} {k} e lt free = record {
    workers = inv.workers;
    sizes = λ j. ground (arith, inv.sizes j);
    in_range = inv.in_range;
    callers = λ j. ground (arith, inv.callers j);
    fits = λ j. ground (arith, fits j, inv.sizes k, length-append (queue s k) (f ∷ []));
    fifo = λ j. ground (
      arith,
      fifo j,
      current-notify (s.pc k),
      append_assoc (s.executed j ++ current (s.pc j)) (queue s j) (f ∷ []),
    );
    places = λ j. place-AtPc c f k free j;
    overs = ground (arith, overs-update k (notify (s.pc k)) lt, over-notify (s.pc k), overs);
    stopping = inv.stopping;
  }

  -- Every other step changes one place, or the flag.
  pub notify_over-Inv :
      (i : ℕ)
      → i < n
      → s.pc i ≡ counted
      → Inv n size (record s {
        pc = update s.pc i done;
        stopper =
            if s.pool.stop_num == s.pool.worker_num then notify_stopper s.stopper else s.stopper;
      })
  notify_over-Inv i lt e = record {
    workers = inv.workers;
    sizes = inv.sizes;
    in_range = inv.in_range;
    callers = inv.callers;
    fits = fits;
    fifo = λ j. ground (arith, fifo j);
    places = λ j. ground (arith, places j, places i);
    overs = ground (arith, overs-update i done lt);
    stopping = ground (arith, inv.stopping);
  }

  pub notify_worker-Inv :
      (k : ℕ)
      → s.stopper ≡ notifying k
      → k < n
      → Inv n size (record s { pc = update s.pc k (notify (s.pc k)); stopper = notifying (suc k) })
  notify_worker-Inv k e lt = record {
    workers = inv.workers;
    sizes = inv.sizes;
    in_range = inv.in_range;
    callers = inv.callers;
    fits = fits;
    fifo = λ j. ground (arith, fifo j, current-notify (s.pc k));
    places = λ j.
        ground (arith, places j, notify-AtPc s.pool.stop (length (queue s k)) (s.pc k) (places k));
    overs = omega (arith, overs-update k (notify (s.pc k)) lt, over-notify (s.pc k));
    stopping = ground (arith, inv.stopping);
  }
