-- ===== src/ThreadPool/Invariant/Defs.antt =====
-- The invariant of the pool's threads (thread_pool/thread_pool.cpp).
use dag_executor.Common.{ℕ, ◌≤◌, ◌<◌, ◌≡◌, ◌≢◌, ◌⊎◌, Bool, true, false, ◌++◌, length, total}
use dag_executor.ThreadPool.Loop.{
  Pc, woken, leaving, counted, done, fault, Caller, chosen, loaded, Stopper, idle, returned, System,
  queue, current,
}

-- What a worker's place says about the length of its queue and about `stop_`.
abbrev pub AtPc {ℓ} : {F : Type ℓ} → Bool → ℕ → Pc F → Type 0
AtPc stop n Pc.testing = stop ≡ true
AtPc stop n Pc.blocking = n ≡ 0
AtPc stop n Pc.asleep = n ≡ 0
AtPc stop n woken = (n ≢ 0) ⊎ (stop ≡ true)
AtPc stop n leaving = stop ≡ true
AtPc stop n counted = stop ≡ true
AtPc stop n done = stop ≡ true
AtPc stop n fault = ⊥
AtPc stop n _ = Unit

-- Whether a worker has been counted in `stop_num_`.
abbrev pub over {ℓ} : {F : Type ℓ} → Pc F → ℕ
over counted = 1
over done = 1
over _ = 0

abbrev pub AtCaller {ℓ} : {F : Type ℓ} → ℕ → Caller F → Type 0
AtCaller n (chosen f k) = k < n
AtCaller n (loaded v) = v < n
AtCaller n _ = Unit

abbrev pub AtStopper : Bool → ℕ → ℕ → Stopper → Type 0
AtStopper stop over_num n idle = stop ≡ false
AtStopper stop over_num n returned = (stop ≡ true) × (over_num ≡ n)
AtStopper stop over_num n _ = stop ≡ true

pub record Inv {ℓ} {F : Type ℓ} (n size : ℕ) (s : System F) : Type ℓ where
  pub workers : s.pool.worker_num ≡ n
  pub sizes : (i : ℕ) → (s.pool.workers i).tasks_size ≡ size
  pub in_range : s.pool.idx < n
  pub callers : (c : ℕ) → AtCaller n (s.caller c)
  pub fits : (i : ℕ) → length (queue s i) ≤ size
  pub fifo : (i : ℕ) → s.accepted i ≡ s.executed i ++ current (s.pc i) ++ queue s i
  pub places : (i : ℕ) → AtPc s.pool.stop (length (queue s i)) (s.pc i)
  pub overs : s.pool.stop_num ≡ total over n s.pc
  pub stopping : AtStopper s.pool.stop s.pool.stop_num n s.stopper
