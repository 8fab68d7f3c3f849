-- ===== src/LogService.antt =====
-- log_service/log_sender.h: `LocalSender`, which collects logs and has the pool save them.
pub mod Controler
pub mod Batches
mod Tests
use dag_executor.Common.{
  ℕ, ◌+◌, Bool, Option, some, List, [], ◌∷◌, ◌++◌, ◌==◌, if◌then◌else◌, ◌>>=◌,
}
use dag_executor.Common.Int.{ℤ}
use dag_executor.ThreadPool
use dag_executor.ThreadPool.{ThreadPool, new_pool}
use dag_executor.Util.{Text, serial_log}

-- The functions that a `LocalSender` submits: `send` captures a copy of the text to save, and the
-- destructor the object, whose text it reads when it runs.
pub data Save : Type 0 where
  save_copy : Text → Save
  save_member : Save

-- `class LocalSender`: the members that its operations use.
pub record LocalSender : Type 0 where
  pub work_string : Text
  pub work_size : ℕ
  pub log_cache_size : ℕ
  pub thread_pool : ThreadPool Save

-- `LocalSender::LocalSender(local_path, thread_pool)`
unfoldable pub new_sender_on : ThreadPool Save → LocalSender
new_sender_on pool = record {
  work_string = [];
  work_size = 0;
  log_cache_size = 10;
  thread_pool = pool;
}

-- `LocalSender::LocalSender(local_path)`, with a pool of its own
unfoldable pub new_sender : LocalSender
unfolding new_sender_on
new_sender = new_sender_on (new_pool 1 100)

-- `LocalSender::send` behind `serial_log`: the section under `mutex_`. `none` is the fault of
-- `ThreadPool::add_task` on a pool with no worker.
unfoldable pub send_log : LocalSender → Text → Option LocalSender
send_log s log =
    let text = s.work_string ++ log in
    let size = s.work_size + 1 in
    if size == s.log_cache_size
    then ThreadPool.add_task s.thread_pool (save_copy text)
      >>= (λ pool. some (record s { work_string = []; work_size = 0; thread_pool = pool }))
    else some (record s { work_string = text; work_size = size })

-- `LocalSender::send`; `send_time` is the reading of `absolute_time_count`.
unfoldable pub send : LocalSender → ℤ → Text → List (Text × Text) → ℤ → Option LocalSender
unfolding send_log
send s send_time metric_name labels counter =
    send_log s (serial_log metric_name labels counter send_time)

-- `LocalSender::~LocalSender`: what it leaves of the pool.
unfoldable pub close : LocalSender → Option (ThreadPool Save)
close s =
    if s.work_size == 0 then some s.thread_pool else ThreadPool.add_task s.thread_pool save_member
