-- ===== src/Timer.antt =====
-- dag_scheduler/timer.h: `Timer`, and `TimerManager` without its mutex and the epoll loop of its
-- constructor. `F` is the type of the functions.
pub mod Order
mod Tests
use dag_executor.Common.{ℕ, suc, Option, some, List, [], ◌∷◌, if◌then◌else◌, ◌>>=◌}
use dag_executor.Common.Int.{ℤ, ◌+ℤ◌, leb_ℤ}
use dag_executor.ThreadPool
use dag_executor.ThreadPool.{ThreadPool}

pub record Timer {ℓ} (F : Type ℓ) : Type ℓ where
  pub time : ℤ
  pub func : F

-- `timers_` in the order in which `top` and `pop` of the `std::priority_queue` give its entries:
-- by `TimerCmp` the earliest first. The order of entries with equal times, which the library
-- leaves open, is the order of insertion here.
pub record TimerManager {ℓ} (F : Type ℓ) : Type ℓ where
  pub timers : List (Timer F)
  pub thread_pool : ThreadPool F

module _ {ℓ} {F : Type ℓ} where
  -- `push` of the priority queue
  unfoldable pub push : Timer F → List (Timer F) → List (Timer F)
  push t [] = t ∷ []
  push t (u ∷ ts) = if leb_ℤ u.time t.time then u ∷ push t ts else t ∷ u ∷ ts

  -- `TimerManager::add`; `now` is the reading of `relative_time_count`.
  unfoldable pub add : TimerManager F → ℤ → ℤ → F → TimerManager F
  add m now relative_time func = record m {
    timers = push (record { time = relative_time +ℤ now; func = func }) m.timers;
  }

  -- The loop of `TimerManager::execute_timeout`. Each round reads the clock: `clock r` is the
  -- reading with number `r`. `none` is the fault of `ThreadPool::add_task`.
  unfoldable pub fire : (ℕ → ℤ) → ℕ → List (Timer F) → ThreadPool F → Option (TimerManager F)
  fire clock r [] p = some (record { timers = []; thread_pool = p })
  fire clock r (t ∷ ts) p =
      if leb_ℤ t.time (clock r)
      then ThreadPool.add_task p t.func >>= (λ q. fire clock (suc r) ts q)
      else some (record { timers = t ∷ ts; thread_pool = p })

  -- `TimerManager::execute_timeout`
  unfoldable pub execute_timeout : (ℕ → ℤ) → TimerManager F → Option (TimerManager F)
  unfolding fire
  execute_timeout clock m = fire clock 0 m.timers m.thread_pool
