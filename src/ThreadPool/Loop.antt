-- ===== src/ThreadPool/Loop.antt =====
-- The threads of thread_pool/thread_pool.cpp, one shared access at a time: `Worker::work_`, callers
-- of `ThreadPool::add_task`, and one caller of `ThreadPool::stop`.
use dag_executor.Common.{
  ℕ, suc, ◌+◌, ◌%◌, ◌≤◌, ◌<◌, ◌≡◌, ◌≢◌, ◌⊎◌, Bool, true, false, List, [], ◌∷◌, ◌++◌, ◌==◌,
  if◌then◌else◌, update,
}
use dag_executor.ThreadPool.{Worker, ThreadPool, Added, new_pool, worker_add_task}

-- Where a worker stands in `Worker::work_` and `ThreadPool::thread_over_`.
pub data Pc {ℓ} (F : Type ℓ) : Type ℓ where
  head : Pc F  -- the loop's test reads `stop_`
  testing : Pc F  -- and then `tasks_queue_.empty()`
  locking : Pc F
  locked : Pc F  -- holds `task_mtx_`, before the first test of the size
  stealing : Pc F  -- has unlocked for `work_steal_`
  relocked : Pc F  -- holds the mutex again, before the second test
  waiting : Pc F  -- holds the mutex, before the predicate of `wait`
  blocking : Pc F  -- holds the mutex, the predicate was false
  asleep : Pc F  -- in `wait`, the mutex released
  notified : Pc F  -- in `wait`, about to take the mutex
  woken : Pc F  -- holds the mutex, past the wait
  running : F → Pc F  -- calls `f()`
  leaving : Pc F  -- left the loop, before `stop_num_++`
  counted : Pc F  -- before the test of `stop_num_`
  done : Pc F
  fault : Pc F  -- `front()` of an empty queue

-- Where a caller of `ThreadPool::add_task` stands.
pub data Caller {ℓ} (F : Type ℓ) : Type ℓ where
  out : Caller F
  checked : F → Caller F  -- found `stop_` false
  chosen : F → ℕ → Caller F  -- has read `idx_`
  placed : Caller F  -- back from `Worker::add_task`
  loaded : ℕ → Caller F  -- has read `idx_` again

-- Where the caller of `ThreadPool::stop` stands.
pub data Stopper : Type 0 where
  idle : Stopper
  flagged : Stopper  -- `stop_` is set, `mtx_` not yet taken
  notifying : ℕ → Stopper
  testing : Stopper
  blocking : Stopper
  asleep : Stopper
  returned : Stopper

module _ {ℓ} {F : Type ℓ} where
  -- The thread is inside its `unique_lock` of `task_mtx_`.
  abbrev pub holds_lock : Pc F → Bool
  holds_lock locked = true
  holds_lock relocked = true
  holds_lock waiting = true
  holds_lock Pc.blocking = true
  holds_lock woken = true
  holds_lock _ = false

  -- `notify_one` on a worker's condition variable
  abbrev pub notify : Pc F → Pc F
  notify Pc.asleep = notified
  notify p = p

  -- the function that ends when a worker steps out of this place
  abbrev pub current : Pc F → List F
  current (running f) = f ∷ []
  current _ = []

-- `notify_one` on `stop_cond_`
abbrev pub notify_stopper : Stopper → Stopper
notify_stopper Stopper.asleep = Stopper.testing
notify_stopper p = p

-- A step of one worker over its own queue: the queue and the place before and after.
pub data Move {ℓ} {F : Type ℓ} (stop : Bool) (q : List F) : Pc F → List F → Pc F → Type ℓ where
  enter : stop ≡ false → Move stop q head q locking
  check : stop ≡ true → Move stop q head q Pc.testing
  more : q ≢ [] → Move stop q Pc.testing q locking
  drained : q ≡ [] → Move stop q Pc.testing q leaving
  lock : Move stop q locking q locked
  miss : q ≡ [] → Move stop q locked q stealing
  take : {f : F} {r : List F} → q ≡ f ∷ r → Move stop q locked r (running f)
  steal : Move stop q stealing q relocked
  refilled : q ≢ [] → Move stop q relocked q woken
  wait : q ≡ [] → Move stop q relocked q waiting
  accept : (q ≢ []) ⊎ (stop ≡ true) → Move stop q waiting q woken
  refuse : q ≡ [] → stop ≡ false → Move stop q waiting q Pc.blocking
  block : Move stop q Pc.blocking q Pc.asleep
  spurious : Move stop q Pc.asleep q notified
  rewait : Move stop q notified q waiting
  leave : q ≡ [] → stop ≡ true → Move stop q woken q leaving
  proceed : {f : F} {r : List F} → q ≡ f ∷ r → Move stop q woken r (running f)
  front_of_empty : q ≡ [] → stop ≡ false → Move stop q woken q fault
  finish : {f : F} → Move stop q (running f) q head

-- `accepted i` and `executed i` are a record of what worker `i` took in and completed, in order;
-- no step reads them.
pub record System {ℓ} (F : Type ℓ) : Type ℓ where
  pub pool : ThreadPool F
  pub pc : ℕ → Pc F
  pub caller : ℕ → Caller F
  pub stopper : Stopper
  pub accepted : ℕ → List F
  pub executed : ℕ → List F

module _ {ℓ} {F : Type ℓ} where
  abbrev pub queue : System F → ℕ → List F
  queue s i = (s.pool.workers i).tasks_queue

  abbrev pub set_worker : ThreadPool F → ℕ → Worker F → ThreadPool F
  set_worker p i w = record p { workers = update p.workers i w }

  -- `ThreadPool::ThreadPool` with the threads of `run_` at the head of their loops
  abbrev pub init : ℕ → ℕ → System F
  unfolding new_pool
  init worker_num tasks_size = record {
    pool = new_pool worker_num tasks_size;
    pc = λ _. head;
    caller = λ _. out;
    stopper = idle;
    accepted = λ _. [];
    executed = λ _. [];
  }

  -- Worker `i` is at `q` and `p` now, and what it ran is complete.
  abbrev pub moved : System F → ℕ → List F → Pc F → System F
  moved s i q p = record s {
    pool = set_worker s.pool i (record (s.pool.workers i) { tasks_queue = q });
    pc = update s.pc i p;
    executed = update s.executed i (s.executed i ++ current (s.pc i));
  }

  -- `Worker::add_task` on worker `k`, called from caller `c`
  abbrev pub place_in : System F → ℕ → F → ℕ → Added F → System F
  place_in s c f k a = record s {
    pool = set_worker s.pool k a.worker;
    pc = if a.notified then update s.pc k (notify (s.pc k)) else s.pc;
    caller = update s.caller c placed;
    accepted = if a.accepted then update s.accepted k (s.accepted k ++ f ∷ []) else s.accepted;
  }

-- Any thread may take the next step.
pub data Step {ℓ} {F : Type ℓ} (s : System F) : System F → Type ℓ where
  work :
      (i : ℕ) {q : List F} {p : Pc F}
      → i < s.pool.worker_num
      → Move s.pool.stop (queue s i) (s.pc i) q p
      → Step s (moved s i q p)
  count_over :
      (i : ℕ)
      → i < s.pool.worker_num
      → s.pc i ≡ leaving
      → Step s (record s {
        pool = record (s.pool) { stop_num = s.pool.stop_num + 1 };
        pc = update s.pc i counted;
      })
  notify_over :
      (i : ℕ)
      → i < s.pool.worker_num
      → s.pc i ≡ counted
      → Step s (record s {
        pc = update s.pc i done;
        stopper =
            if s.pool.stop_num == s.pool.worker_num then notify_stopper s.stopper else s.stopper;
      })
  reject : (c : ℕ) → s.caller c ≡ out → s.pool.stop ≡ true → Step s s
  offer :
      (c : ℕ) (f : F)
      → s.caller c ≡ out
      → s.pool.stop ≡ false
      → Step s (record s { caller = update s.caller c (checked f) })
  choose :
      (c : ℕ) {f : F}
      → s.caller c ≡ checked f
      → Step s (record s { caller = update s.caller c (chosen f s.pool.idx) })
  place :
      (c : ℕ) {f : F} {k : ℕ}
      → s.caller c ≡ chosen f k
      → holds_lock (s.pc k) ≡ false
      → Step s (place_in s c f k (worker_add_task (s.pool.workers k) f))
  load :
      (c : ℕ)
      → s.caller c ≡ placed
      → Step s (record s { caller = update s.caller c (loaded s.pool.idx) })
  store :
      (c : ℕ) {v : ℕ}
      → s.caller c ≡ loaded v
      → Step s (record s {
        pool = record (s.pool) { idx = (v + 1) % s.pool.worker_num };
        caller = update s.caller c out;
      })
  flag :
      s.stopper ≡ idle
      → Step s (record s { pool = record (s.pool) { stop = true }; stopper = flagged })
  begin_notify : s.stopper ≡ flagged → Step s (record s { stopper = notifying 0 })
  notify_worker :
      {k : ℕ}
      → s.stopper ≡ notifying k
      → k < s.pool.worker_num
      → Step s (record s { pc = update s.pc k (notify (s.pc k)); stopper = notifying (suc k) })
  end_notify :
      {k : ℕ}
      → s.stopper ≡ notifying k
      → s.pool.worker_num ≤ k
      → Step s (record s { stopper = Stopper.testing })
  all_over :
      s.stopper ≡ Stopper.testing
      → s.pool.stop_num ≡ s.pool.worker_num
      → Step s (record s { stopper = returned })
  not_over :
      s.stopper ≡ Stopper.testing
      → s.pool.stop_num ≢ s.pool.worker_num
      → Step s (record s { stopper = Stopper.blocking })
  block_stop : s.stopper ≡ Stopper.blocking → Step s (record s { stopper = Stopper.asleep })
  spurious_stop : s.stopper ≡ Stopper.asleep → Step s (record s { stopper = Stopper.testing })

pub data Reach {ℓ} {F : Type ℓ} (s : System F) : System F → Type ℓ where
  here : Reach s s
  later : {t u : System F} → Reach s t → Step t u → Reach s u
