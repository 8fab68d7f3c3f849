-- ===== src/ThreadPool/Invariant.antt =====
-- What every interleaving of the pool's threads keeps (thread_pool/thread_pool.cpp).
mod Defs
mod Moves
mod Workers
mod Steps
pub use Defs.*
pub use Moves.*
pub use Workers.*
pub use Steps.*
