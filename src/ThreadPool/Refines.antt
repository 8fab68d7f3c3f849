-- ===== src/ThreadPool/Refines.antt =====
-- The pool's threads do what a `Service` does (thread_pool/thread_pool.cpp).
use mathlib.Core.List.{append_assoc, append-nil}
use dag_executor.Common.{
  ℕ, ◌≤◌, ◌<◌, ◌≡◌, refl, Bool, true, false, List, [], ◌∷◌, ◌++◌, arith, length, length-append, leb,
  ◌⊎◌, inl, inr,
}
use dag_executor.ThreadPool.{worker_add_task}
use dag_executor.ThreadPool.Loop.{
  Pc, Caller, checked, chosen, System, Move, Step, work, count_over, notify_over, reject, offer,
  choose, place, load, store, flag, begin_notify, notify_worker, end_notify, all_over, not_over,
  block_stop, spurious_stop, Reach, queue, current, moved, notify, init, place_in,
}
use dag_executor.ThreadPool.Invariant.{Inv, Move-fifo, init-Inv, Reach-Inv}
use dag_executor.ThreadPool.Service.{
  Service, Serve, silent, ask, accept, drop, complete, taken, Serve-Grows,
}

module _ {ℓ} {F : Type ℓ} where
  -- the function of a call of `add_task` that no worker has seen
  abbrev pub wanted : Caller F → List F
  wanted (checked f) = f ∷ []
  wanted (chosen f k) = f ∷ []
  wanted _ = []

  -- The threads as a service: what a worker runs is pending.
  abbrev pub view : System F → Service F
  view s = record {
    asked = λ c. wanted (s.caller c);
    pending = λ i. current (s.pc i) ++ queue s i;
    completed = s.executed;
  }

  at_work : (p : Pc F) → (current p ≡ []) ⊎ ((f : F) × (current p ≡ f ∷ []))
  at_work (Pc.running f) = inr (f, refl)
  at_work _ = inl refl

  module _ {n size : ℕ} {s : System F} (inv : Inv n size s) where
    -- A step of a worker completes what it was running.
    moved-Serve :
        (i : ℕ) {q : List F} {p : Pc F}
        → i < n
        → Move s.pool.stop (queue s i) (s.pc i) q p
        → Serve n size (view s) (view (moved s i q p))
    moved-Serve i lt mv = elim (at_work (s.pc i)) [
      | inl e ↦
          silent (λ j. refl) (λ j. ground (arith, Move-fifo mv))
            (λ j. ground (arith, append-nil (s.executed i)))
      | inr (f, e) ↦
          complete i f (queue s i) lt (ground arith) (λ j. refl) (λ j. ground (arith, Move-fifo mv))
            (λ j. ground arith)
    ]

    current-notify : (p : Pc F) → current (notify p) ≡ current p
    current-notify p = ground arith

    length-current : (p : Pc F) → length (current p) ≤ 1
    length-current p = ground arith

    place-Serve :
        (c : ℕ) {f : F} {k : ℕ}
        → s.caller c ≡ chosen f k
        → k < n
        → (full : Bool) → leb (s.pool.workers k).tasks_size (length (queue s k)) ≡ full
        → Serve n size (view s) (view (place_in s c f k (worker_add_task (s.pool.workers k) f)))
    unfolding worker_add_task
    place-Serve c {f} {k} e lt true full =
        drop c k f lt (ground arith)
          (ground (arith, inv.sizes k, length-append (current (s.pc k)) (queue s k)))
          (λ j. ground arith) (λ j. ground arith) (λ j. refl)
    place-Serve c {f} {k} e lt false room =
        accept c k f lt (ground arith)
          (ground (
            arith,
            inv.sizes k,
            length-append (current (s.pc k)) (queue s k),
            length-current (s.pc k),
          ))
          (λ j. ground arith)
          (λ j.
            ground (
              arith,
              current-notify (s.pc k),
              append_assoc (current (s.pc k)) (queue s k) (f ∷ []),
            ))
          (λ j. refl)

  unseen : {n size : ℕ} {a : Service F} → Serve n size a a
  unseen = silent (λ c. refl) (λ j. refl) (λ j. refl)

  -- Each step of a thread is a step of the service.
  Step-Serve :
      {n size : ℕ} {s t : System F} → Step s t → Inv n size s → Serve n size (view s) (view t)
  Step-Serve (work i lt mv) inv = moved-Serve inv i (omega (arith, inv.workers)) mv
  Step-Serve (count_over i lt e) inv = silent (λ c. ground arith) (λ j. ground arith) (λ j. refl)
  Step-Serve (notify_over i lt e) inv = silent (λ c. ground arith) (λ j. ground arith) (λ j. refl)
  Step-Serve (reject c e on) inv = unseen
  Step-Serve (offer c f e off) inv =
      ask c f (ground arith) (λ j. ground arith) (λ j. refl) (λ j. refl)
  Step-Serve (choose c {f} e) inv = silent (λ c. ground arith) (λ j. ground arith) (λ j. refl)
  Step-Serve (place c e free) inv = place-Serve inv c e (ground (arith, inv.callers c)) _ refl
  Step-Serve (load c e) inv = silent (λ c. ground arith) (λ j. ground arith) (λ j. refl)
  Step-Serve (store c e) inv = silent (λ c. ground arith) (λ j. ground arith) (λ j. refl)
  Step-Serve (flag e) inv = unseen
  Step-Serve (begin_notify e) inv = unseen
  Step-Serve {s = s} (notify_worker {k} e lt) inv =
      silent (λ c. refl) (λ j. ground (arith, current-notify inv (s.pc k))) (λ j. refl)
  Step-Serve (end_notify e le) inv = unseen
  Step-Serve (all_over e all) inv = unseen
  Step-Serve (not_over e some_left) inv = unseen
  Step-Serve (block_stop e) inv = unseen
  Step-Serve (spurious_stop e) inv = unseen

  -- On a pool with at least one worker, whatever has happened since its threads started: each step
  -- of a thread is one step of the service, most often a silent one. So a function is taken from the
  -- caller that asks, put by one worker behind those that it has, or lost if that worker has no
  -- room, and a worker completes the first of those that it has; no step does anything else. And
  -- what a worker has accepted stays as it is, in its order, with at most one function more.
  pub Reach-Serve :
      (n size : ℕ) {s t : System F}
      → 0 < n
      → Reach (init n size) s
      → Step s t
      → (i : ℕ)
      → Serve n size (view s) (view t)
        × ((fs : List F) × (taken (view t) i ≡ taken (view s) i ++ fs) × (length fs ≤ 1))
  Reach-Serve n size pos r st i = (
    Step-Serve st (Reach-Inv (init-Inv n size pos) r),
    Serve-Grows (Step-Serve st (Reach-Inv (init-Inv n size pos) r)) i,
  )
