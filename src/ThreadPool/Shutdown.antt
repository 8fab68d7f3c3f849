-- ===== src/ThreadPool/Shutdown.antt =====
-- `ThreadPool::stop` and the functions that were accepted before it (thread_pool/thread_pool.cpp).
use dag_executor.Common.{ℕ, ◌<◌, ◌≡◌, ◌++◌, refl, sym, ◌∙◌, Bool, true, List, [], arith, length}
use dag_executor.ThreadPool.Loop.{
  Pc, leaving, counted, done, Caller, checked, chosen, idle, flagged, returned, Move, drained,
  leave, System, Step, Reach, here, later, queue, current, init, work, count_over, notify_over,
  reject, offer, choose, place, load, store, flag, begin_notify, notify_worker, end_notify,
  all_over, not_over, block_stop, spurious_stop, notify, moved,
}
use mathlib.Core.List.{append-nil}
use dag_executor.ThreadPool.Invariant.{Inv, init-Inv, Reach-Inv}
use dag_executor.ThreadPool.Safety.{stop-joins, queues_bounded_fifo}

-- The caller has not found `stop_` false and then gone on to push.
abbrev pub IsOutside {ℓ} : {F : Type ℓ} → Caller F → Type 0
IsOutside (checked _) = ⊥
IsOutside (chosen _ _) = ⊥
IsOutside _ = Unit

-- A worker that has left its loop has left an empty queue.
abbrev pub IsDrained {ℓ} : {F : Type ℓ} → ℕ → Pc F → Type 0
IsDrained n leaving = n ≡ 0
IsDrained n counted = n ≡ 0
IsDrained n done = n ≡ 0
IsDrained n _ = Unit

-- `acc` is what each worker had accepted when `stop_` was set.
pub record Stopping {ℓ} {F : Type ℓ} (acc : ℕ → List F) (s : System F) : Type ℓ where
  pub closed : (i : ℕ) → s.accepted i ≡ acc i
  pub stopped : s.pool.stop ≡ true
  pub outside : (c : ℕ) → IsOutside (s.caller c)
  pub drains : (i : ℕ) → IsDrained (length (queue s i)) (s.pc i)

Move-IsDrained {ℓ} :
    {F : Type ℓ} {stop : Bool} {q : List F} {p : Pc F} {q' : List F} {p' : Pc F}
    → Move stop q p q' p'
    → IsDrained (length q') p'
Move-IsDrained (drained e) = ground arith
Move-IsDrained (leave e on) = ground arith
Move-IsDrained mv = ground arith

notify-IsDrained {ℓ} : {F : Type ℓ} (n : ℕ) (p : Pc F) → IsDrained n p → IsDrained n (notify p)
notify-IsDrained n Pc.asleep h = tt
notify-IsDrained n _ h = h

module _ {ℓ} {F : Type ℓ} {acc : ℕ → List F} {s : System F} (v : Stopping acc s) where
  open v use {closed, stopped, outside, drains}

  work-Stopping :
      (i : ℕ) {q : List F} {p : Pc F}
      → Move s.pool.stop (queue s i) (s.pc i) q p
      → Stopping acc (moved s i q p)
  work-Stopping i mv = record {
    closed = closed;
    stopped = stopped;
    outside = outside;
    drains = λ j. ground (arith, drains j, Move-IsDrained mv);
  }

-- Once `stop_` is set and no call is between its test of `stop_` and its push, no later step
-- brings a function into a queue that its worker has left.
pub Step-Stopping {ℓ} :
    {F : Type ℓ} {acc : ℕ → List F} {s t : System F} → Step s t → Stopping acc s → Stopping acc t
Step-Stopping (work i lt mv) v = work-Stopping v i mv
Step-Stopping (count_over i lt e) v = record {
  closed = v.closed;
  stopped = v.stopped;
  outside = v.outside;
  drains = λ j. ground (arith, v.drains j, v.drains i);
}
Step-Stopping (notify_over i lt e) v = record {
  closed = v.closed;
  stopped = v.stopped;
  outside = v.outside;
  drains = λ j. ground (arith, v.drains j, v.drains i);
}
Step-Stopping (reject c e on) v = v
Step-Stopping (offer c f e off) v = ground (arith, v.stopped)
Step-Stopping (choose c e) v = ground (arith, v.outside c)
Step-Stopping (place c e free) v = ground (arith, v.outside c)
Step-Stopping (load c e) v = record {
  closed = v.closed;
  stopped = v.stopped;
  outside = λ j. ground (arith, v.outside j);
  drains = v.drains;
}
Step-Stopping (store c e) v = record {
  closed = v.closed;
  stopped = v.stopped;
  outside = λ j. ground (arith, v.outside j);
  drains = v.drains;
}
Step-Stopping (flag e) v = record {
  closed = v.closed;
  stopped = refl;
  outside = v.outside;
  drains = v.drains;
}
Step-Stopping {s} (notify_worker {k} e lt) v = record {
  closed = v.closed;
  stopped = v.stopped;
  outside = v.outside;
  drains =
      λ j. ground (arith, v.drains j, notify-IsDrained (length (queue s k)) (s.pc k) (v.drains k));
}
Step-Stopping (begin_notify e) v = record {
  closed = v.closed;
  stopped = v.stopped;
  outside = v.outside;
  drains = v.drains;
}
Step-Stopping (end_notify e le) v = record {
  closed = v.closed;
  stopped = v.stopped;
  outside = v.outside;
  drains = v.drains;
}
Step-Stopping (all_over e all) v = record {
  closed = v.closed;
  stopped = v.stopped;
  outside = v.outside;
  drains = v.drains;
}
Step-Stopping (not_over e some_left) v = record {
  closed = v.closed;
  stopped = v.stopped;
  outside = v.outside;
  drains = v.drains;
}
Step-Stopping (block_stop e) v = record {
  closed = v.closed;
  stopped = v.stopped;
  outside = v.outside;
  drains = v.drains;
}
Step-Stopping (spurious_stop e) v = record {
  closed = v.closed;
  stopped = v.stopped;
  outside = v.outside;
  drains = v.drains;
}

Reach-Stopping {ℓ} :
    {F : Type ℓ} {acc : ℕ → List F} {s t : System F} → Stopping acc s → Reach s t → Stopping acc t
Reach-Stopping v here = v
Reach-Stopping v (later r st) = Step-Stopping st (Reach-Stopping v r)

Reach-append {ℓ} : {F : Type ℓ} {s t u : System F} → Reach s t → Reach t u → Reach s u
Reach-append r here = r
Reach-append r (later q st) = later (Reach-append r q) st

pub all_run {ℓ} :
    {F : Type ℓ} {acc : List F} (ran : List F) {now q : List F}
    → acc ≡ ran ++ now ++ q
    → now ≡ []
    → q ≡ []
    → ran ≡ acc
all_run ran e none_now none_left = sym (e ∙ simp (none_now, none_left, append-nil))

-- The states in which `stop` may be called and then runs alone with the workers.
pub record IsQuiet {ℓ} {F : Type ℓ} (s : System F) : Type ℓ where
  pub unstopped : s.stopper ≡ idle
  pub outside : (c : ℕ) → IsOutside (s.caller c)

-- Setting `stop_` in a quiet state.
abbrev pub flag_of {ℓ} : {F : Type ℓ} → System F → System F
flag_of s = record s { pool = record (s.pool) { stop = true }; stopper = flagged }

module _ {ℓ} {F : Type ℓ} (n size : ℕ) (pos : 0 < n) {s : System F} (r : Reach (init n size) s)
    (quiet : IsQuiet s) where
  start : Inv n size s
  start = Reach-Inv (init-Inv n size pos) r

  flag-Stopping : Stopping s.accepted (flag_of s)
  flag-Stopping = record {
    closed = λ _. refl;
    stopped = refl;
    outside = quiet.outside;
    drains = λ i. ground (arith, start.places i, start.stopping, quiet.unstopped);
  }

  -- On a pool with at least one worker: if `stop` is called in a reachable state in which no call
  -- of `add_task` is between its test of `stop_` and its push, then once `stop` has returned every
  -- worker has run, in order, exactly what it had accepted when `stop_` was set, and its queue is
  -- empty.
  pub stop_drains :
      {t : System F}
      → Reach (flag_of s) t
      → t.stopper ≡ returned
      → (i : ℕ) → i < n
      → (queue t i ≡ []) × (t.executed i ≡ s.accepted i)
  stop_drains {t} q e i lt = (
    empty.0,
    all_run (t.executed i) (queues_bounded_fifo n size pos all i).1 empty.1 empty.0 ∙ v.closed i,
  )
    where
      all : Reach (init n size) t
      all = Reach-append (later r (flag quiet.unstopped)) q

      v : Stopping s.accepted t
      v = Reach-Stopping flag-Stopping q

      empty : (queue t i ≡ []) × (current (t.pc i) ≡ [])
      empty = ground (arith, (stop-joins n size pos all e i lt).1, v.drains i)
