-- ===== src/ThreadPool/Tests.antt =====
-- Runs of a pool with one worker and room for two functions (thread_pool/thread_pool.cpp).
use dag_executor.Common.{
  ◌≢◌, ℕ, ◌≤◌, ◌≡◌, refl, ℕ_discrete, false, [], ◌++◌, arith, length, ltb, if◌then◌else◌,
}
use dag_executor.ThreadPool.{new_pool, worker_add_task}
use dag_executor.ThreadPool.Loop.{
  fault, Pc, done, returned, enter, check, more, drained, lock, miss, take, steal, wait, refuse,
  block, finish, System, Step, work, count_over, notify_over, offer, choose, place, load, store,
  flag, begin_notify, notify_worker, end_notify, all_over, Reach, here, later, init, queue, current,
}
use dag_executor.ThreadPool.Service.{Serve, Grows}
use dag_executor.ThreadPool.Refines.{view, Reach-Serve}
use dag_executor.ThreadPool.Safety.{queues_bounded_fifo, never_faults, asleep-empty}
use dag_executor.ThreadPool.Destructor.{
  in_stop, destroyed, Pool, thread, stop_back, join, delete, all_joined, Destroys, no_step,
  and_then, new, Touches,
}
use dag_executor.ThreadPool.Destructor.Safe.{deleted_untouched, destroyed_once}
use dag_executor.ThreadPool.Destructor.Ends.{Finishes, can_destroy}
use dag_executor.ThreadPool.Drains.{Alone, can_complete}
use dag_executor.ThreadPool.Shutdown.{IsOutside, IsQuiet, flag_of, stop_drains}
use dag_executor.ThreadPool.LostWakeup.{IsStuck, IsIdle, stop_can_hang}

-- A call of `add_task` puts 7 into the queue and returns.
abbrev filled : (s : System ℕ) × Reach (init 1 2) s
unfolding new_pool worker_add_task ℕ_discrete
filled = (
  _,
  later
      (later
        (later (later (later here (offer 0 7 refl refl)) (choose 0 refl))
          (place 0 {f = 7} {k = 0} refl refl))
        (load 0 refl))
      (store 0 refl),
)

-- The worker takes it.
abbrev busy : (s : System ℕ) × Reach (init 1 2) s
unfolding new_pool worker_add_task ℕ_discrete
busy = (
  _,
  later (later (later (filled.1) (work 0 (omega arith) (enter refl))) (work 0 (omega arith) lock))
      (work 0 (omega arith) (take refl)),
)

queues_bounded_fifo_example :
    (length (queue (busy.0) 0) ≤ 2)
    × ((busy.0).accepted 0 ≡ (busy.0).executed 0 ++ current ((busy.0).pc 0) ++ queue (busy.0) 0)
queues_bounded_fifo_example = queues_bounded_fifo 1 2 (omega arith) (busy.1) 0

-- The worker finds the queue empty and sleeps.
abbrev sleeping : (s : System ℕ) × Reach (init 1 2) s
unfolding new_pool ℕ_discrete
sleeping = (
  _,
  later
      (later
        (later
          (later
            (later
              (later (later here (work 0 (omega arith) (enter refl))) (work 0 (omega arith) lock))
              (work 0 (omega arith) (miss refl)))
            (work 0 (omega arith) steal))
          (work 0 (omega arith) (wait refl)))
        (work 0 (omega arith) (refuse refl refl)))
      (work 0 (omega arith) block),
)

sleeping-asleep : (sleeping.0).pc 0 ≡ Pc.asleep
unfolding new_pool ℕ_discrete
sleeping-asleep = refl

asleep-empty_example : queue (sleeping.0) 0 ≡ []
asleep-empty_example = asleep-empty 1 2 (omega arith) (sleeping.1) 0 sleeping-asleep

-- From `filled`, `stop` sets its flag; the worker runs 7 and leaves, and `stop` returns.
abbrev drained_run : (s : System ℕ) × Reach (flag_of (filled.0)) s
unfolding new_pool worker_add_task ℕ_discrete
drained_run = (
  _,
  later
      (later
        (later
          (later
            (later
              (later
                (later
                  (later
                    (later
                      (later
                        (later
                          (later (later here (work 0 (omega arith) (check refl)))
                            (work 0 (omega arith) (more (λ e. cc))))
                          (work 0 (omega arith) lock))
                        (work 0 (omega arith) (take refl)))
                      (work 0 (omega arith) finish))
                    (work 0 (omega arith) (check refl)))
                  (work 0 (omega arith) (drained refl)))
                (count_over 0 (omega arith) refl))
              (notify_over 0 (omega arith) refl))
            (begin_notify refl))
          (notify_worker refl (omega arith)))
        (end_notify refl (omega arith)))
      (all_over refl refl),
)

filled-IsQuiet : IsQuiet (filled.0)
unfolding new_pool worker_add_task ℕ_discrete
filled-IsQuiet = record { unstopped = refl; outside = λ c. ground arith }

drained_run-returned : (drained_run.0).stopper ≡ returned
unfolding new_pool worker_add_task ℕ_discrete
drained_run-returned = refl

stop_drains_example :
    (queue (drained_run.0) 0 ≡ []) × ((drained_run.0).executed 0 ≡ (filled.0).accepted 0)
stop_drains_example =
    stop_drains 1 2 (omega arith) (filled.1) filled-IsQuiet (drained_run.1) drained_run-returned 0
      (omega arith)

-- `stop` on an idle pool, from its call to its return.
abbrev joined : (s : System ℕ) × Reach (init 1 2) s
unfolding new_pool ℕ_discrete
joined = (
  _,
  later
      (later
        (later
          (later
            (later
              (later
                (later (later (later here (flag refl)) (begin_notify refl))
                  (notify_worker refl (omega arith)))
                (work 0 (omega arith) (check refl)))
              (work 0 (omega arith) (drained refl)))
            (end_notify refl (omega arith)))
          (count_over 0 (omega arith) refl))
        (notify_over 0 (omega arith) refl))
      (all_over refl refl),
)

joined-returned : (joined.0).stopper ≡ returned
unfolding new_pool ℕ_discrete
joined-returned = refl

-- For functions that are numbers and queues of two.
stop_can_hang_example :
    (s : System ℕ) × Reach (init 1 2) s × IsStuck s × ((t : System ℕ) (st : Step s t) → IsIdle st)
stop_can_hang_example = stop_can_hang ℕ 2

-- The pool with its destructor in `stop`.
abbrev closing : System ℕ → Pool ℕ
closing s = record { threads = s; stage = in_stop; deletes = λ _. 0 }

-- The threads run while the destructor is in `stop`.
lift : {s : System ℕ} → Reach (init 1 2) s → Destroys (new ℕ 1 2) (closing s)
lift here = no_step
lift (later r st) = and_then (lift r) (thread st)

busy-IsOutside : (c : ℕ) → IsOutside ((busy.0).caller c)
unfolding new_pool worker_add_task ℕ_discrete
busy-IsOutside c = ground arith

-- The worker ends its function.
abbrev finished : (s : System ℕ) × Step (busy.0) s
unfolding new_pool worker_add_task ℕ_discrete
finished = (_, work 0 (omega arith) (finish {f = 7}))

finished-Touches : Touches (finished.1) 0
unfolding new_pool worker_add_task ℕ_discrete
finished-Touches = refl

deleted_untouched_example : (closing (busy.0)).deletes 0 ≡ 0
deleted_untouched_example =
    deleted_untouched 1 2 (omega arith) (lift (busy.1)) (finished.1) 0 busy-IsOutside
      finished-Touches

-- `stop` returns, and the one worker is joined and deleted.
abbrev gone : (d : Pool ℕ) × Destroys (new ℕ 1 2) d
unfolding new_pool ℕ_discrete
gone = (
  _,
  and_then
      (and_then
        (and_then (and_then (lift (joined.1)) (stop_back refl refl)) (join refl (omega arith) refl))
        (delete refl))
      (all_joined refl (omega arith)),
)

gone-destroyed : (gone.0).stage ≡ destroyed
unfolding new_pool ℕ_discrete
gone-destroyed = refl

destroyed_once_example :
    ((gone.0).deletes 0 ≡ 1)
    × ((gone.0).threads.pc 0 ≡ done)
    × ((gone.0).threads.stopper ≡ returned)
destroyed_once_example = destroyed_once 1 2 (omega arith) (gone.1) gone-destroyed 0 (omega arith)

busy-unstopped : (busy.0).pool.stop ≡ false
unfolding new_pool worker_add_task ℕ_discrete
busy-unstopped = refl

can_complete_example :
    (t : System ℕ) × Alone 0 (busy.0) t
    × (t.accepted 0 ≡ (busy.0).accepted 0)
    × (t.executed 0 ≡ (busy.0).accepted 0)
can_complete_example = can_complete 1 2 (omega arith) (busy.1) busy-unstopped 0 (omega arith)

Reach-Serve_example :
    Serve 1 2 (view (busy.0)) (view (finished.0)) × Grows (view (busy.0)) (view (finished.0)) 0
Reach-Serve_example = Reach-Serve 1 2 (omega arith) (busy.1) (finished.1) 0

can_destroy_example :
    (e : Pool ℕ) × Finishes (closing (joined.0)) e
    × (e.stage ≡ destroyed)
    × ((i : ℕ) → e.deletes i ≡ (if ltb i 1 then 1 else 0))
can_destroy_example = can_destroy 1 2 (omega arith) (lift (joined.1)) joined-returned

never_faults_example : (busy.0).pc 0 ≢ fault
never_faults_example = never_faults 1 2 (omega arith) (busy.1) 0
