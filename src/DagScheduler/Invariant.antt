-- ===== src/DagScheduler/Invariant.antt =====
-- What every interleaving of `Scheduler::work_` and the workers keeps.
mod Defs
mod Pool
mod Facts
mod Steps
mod Informs
mod Runs
pub use Facts.{worked-le, length-worked-le, informed-mem, not-submitted}
pub use Pool.{add_task-accepts}
unfoldable pub use Defs.*
pub use Runs.*
