-- ===== src/ThreadPool/LostWakeup.antt =====
-- `ThreadPool::stop` notifies a worker without holding the worker's mutex (thread_pool/
-- thread_pool.cpp): what that can lead to.
use dag_executor.Common.{ℕ, ◌≡◌, refl, ℕ_discrete, Bool, true, List, arith}
use dag_executor.ThreadPool.{new_pool}
use dag_executor.ThreadPool.Loop.{
  Pc, out, Stopper, Move, enter, lock, miss, steal, wait, refuse, block, spurious, System, Step,
  work, count_over, notify_over, reject, offer, choose, place, load, store, flag, begin_notify,
  notify_worker, end_notify, all_over, not_over, block_stop, spurious_stop, Reach, here, later,
  init,
}

-- The step is a spurious wake-up of a worker.
abbrev pub IsWakeup {ℓ} :
    {F : Type ℓ} {stop : Bool} {q : List F} {p : Pc F} {q' : List F} {p' : Pc F}
    → Move stop q p q' p'
    → Type 0
IsWakeup spurious = Unit
IsWakeup _ = ⊥

-- The step is one that no thread of the program causes: a spurious wake-up of a waiting thread, or
-- a call of `add_task` that is turned away and changes nothing.
abbrev pub IsIdle {ℓ} : {F : Type ℓ} {s t : System F} → Step s t → Type 0
IsIdle (work i lt mv) = IsWakeup mv
IsIdle (reject c e on) = Unit
IsIdle (spurious_stop e) = Unit
IsIdle _ = ⊥

asleep-IsWakeup {ℓ} :
    {F : Type ℓ} {stop : Bool} {q : List F} {p : Pc F} {q' : List F} {p' : Pc F}
    → (mv : Move stop q p q' p') → p ≡ Pc.asleep
    → IsWakeup mv
asleep-IsWakeup spurious e = tt
asleep-IsWakeup mv e = cc

-- The one worker and the thread in `stop` both sleep.
pub record IsStuck {ℓ} {F : Type ℓ} (s : System F) : Type ℓ where
  pub alone : s.pool.worker_num ≡ 1
  pub stopped : s.pool.stop ≡ true
  pub worker : s.pc 0 ≡ Pc.asleep
  pub stopper : s.stopper ≡ Stopper.asleep
  pub callers : (c : ℕ) → s.caller c ≡ out

module _ {ℓ} {F : Type ℓ} {s : System F} (stuck : IsStuck s) where
  -- Nothing but a spurious wake-up moves a state in which both sleep.
  pub stuck-IsIdle : {t : System F} (st : Step s t) → IsIdle st
  stuck-IsIdle (work i lt mv) = asleep-IsWakeup mv (ground (arith, stuck.alone, stuck.worker))
  stuck-IsIdle (count_over i lt e) = ground (arith, stuck.alone, stuck.worker)
  stuck-IsIdle (notify_over i lt e) = ground (arith, stuck.alone, stuck.worker)
  stuck-IsIdle (reject c e on) = tt
  stuck-IsIdle (offer c f e off) = ground (arith, stuck.stopped)
  stuck-IsIdle (choose c e) = ground (arith, stuck.callers c)
  stuck-IsIdle (place c e free) = ground (arith, stuck.callers c)
  stuck-IsIdle (load c e) = ground (arith, stuck.callers c)
  stuck-IsIdle (store c e) = ground (arith, stuck.callers c)
  stuck-IsIdle (flag e) = ground (arith, stuck.stopper)
  stuck-IsIdle (begin_notify e) = ground (arith, stuck.stopper)
  stuck-IsIdle (notify_worker e lt) = ground (arith, stuck.stopper)
  stuck-IsIdle (end_notify e le) = ground (arith, stuck.stopper)
  stuck-IsIdle (all_over e all) = ground (arith, stuck.stopper)
  stuck-IsIdle (not_over e some_left) = ground (arith, stuck.stopper)
  stuck-IsIdle (block_stop e) = ground (arith, stuck.stopper)
  stuck-IsIdle (spurious_stop e) = tt

-- A pool of one worker, as `LocalSender` makes it, can reach a state in which `stop` has been
-- called, the worker and the thread in `stop` sleep, and only a spurious wake-up can move them.
pub stop_can_hang {ℓ} :
    (F : Type ℓ) (size : ℕ)
    → (s : System F) × Reach (init 1 size) s
      × IsStuck s
      × ((t : System F) (st : Step s t) → IsIdle st)
unfolding new_pool ℕ_discrete
stop_can_hang F size = (
  _,
  (later
      (later
        (later
          (later
            (later
              (later
                (later
                  (later
                    (later
                      (later
                        (later
                          (later (later here (work 0 (omega arith) (enter refl)))
                            (work 0 (omega arith) lock))
                          (work 0 (omega arith) (miss refl)))
                        (work 0 (omega arith) steal))
                      (work 0 (omega arith) (wait refl)))
                    (work 0 (omega arith) (refuse refl refl)))
                  (flag refl))
                (begin_notify refl))
              (notify_worker refl (omega arith)))
            (end_notify refl (omega arith)))
          (not_over refl (omega arith)))
        (block_stop refl))
      (work 0 (omega arith) block)),
  record { alone = refl; stopped = refl; worker = refl; stopper = refl; callers = λ _. refl },
  λ t st.
      stuck-IsIdle
        (record {
          alone = refl;
          stopped = refl;
          worker = refl;
          stopper = refl;
          callers = λ _. refl;
        })
        st,
)
