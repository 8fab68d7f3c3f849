-- ===== src/ThreadPool/Invariant/Moves.antt =====
-- A step of one worker keeps its part of the invariant (thread_pool/thread_pool.cpp).
use dag_executor.Common.{◌≤◌, ◌≡◌, Bool, List, ◌++◌, arith, length}
use dag_executor.ThreadPool.Loop.{
  Pc, Move, enter, check, take, refilled, accept, refuse, leave, proceed, front_of_empty, current,
}
use dag_executor.ThreadPool.Invariant.Defs.{AtPc, over}

module _ {ℓ} {F : Type ℓ} {stop : Bool} {q : List F} where
  -- A worker takes from the front of its queue, and what it takes it runs.
  pub Move-fifo : {p : Pc F} {q' : List F} {p' : Pc F} → Move stop q p q' p' → q ≡ current p' ++ q'
  Move-fifo (take e) = e
  Move-fifo (proceed e) = e
  Move-fifo mv = ground arith

  pub Move-AtPc :
      {p : Pc F} {q' : List F} {p' : Pc F}
      → Move stop q p q' p'
      → AtPc stop (length q) p
      → AtPc stop (length q') p'
  Move-AtPc (check e) h = e
  Move-AtPc (take e) h = tt
  Move-AtPc (refilled e) h = ground arith
  Move-AtPc (accept e) h = ground arith
  Move-AtPc (refuse e off) h = ground arith
  Move-AtPc (leave e on) h = on
  Move-AtPc (front_of_empty e off) h = ground arith
  Move-AtPc mv h = ground arith

  pub Move-length :
      {p : Pc F} {q' : List F} {p' : Pc F} → Move stop q p q' p' → length q' ≤ length q
  Move-length (take e) = ground arith
  Move-length (proceed e) = ground arith
  Move-length mv = ground arith

  -- A worker is counted by `count_over` alone.
  pub Move-over : {p : Pc F} {q' : List F} {p' : Pc F} → Move stop q p q' p' → over p' ≡ over p
  Move-over (enter e) = ground arith
  Move-over mv = ground arith
