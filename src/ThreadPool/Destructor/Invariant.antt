-- ===== src/ThreadPool/Destructor/Invariant.antt =====
-- What holds while the pool is destroyed (thread_pool/thread_pool.cpp).
use dag_executor.Common.{ℕ, suc, ◌≤◌, ◌<◌, ◌≡◌, ◌≢◌, refl, arith, ℕ_discrete, Bool, List}
use dag_executor.ThreadPool.Loop.{
  Pc, done, returned, System, Move, Step, work, count_over, notify_over, place, flag, begin_notify,
  notify_worker, end_notify, all_over, not_over, block_stop, spurious_stop, Reach, here, later,
  init, enter,
}
use dag_executor.ThreadPool.Invariant.{over, init-Inv, Reach-Inv}
use dag_executor.ThreadPool.Destructor.{
  Destruct, in_stop, joining, deleting, destroyed, Pool, Destroy, thread, stop_back, join, delete,
  all_joined, Destroys, no_step, and_then, new,
}

-- A worker that moves has not left its loop.
pub Move-inside {ℓ} :
    {F : Type ℓ} {stop : Bool} {q : List F} {p : Pc F} {q' : List F} {p' : Pc F}
    → Move stop q p q' p'
    → over p ≡ 0
Move-inside (enter e) = refl
Move-inside mv = refl

-- A thread that has ended stays so.
pub Step-done {ℓ} :
    {F : Type ℓ} {s t : System F} → Step s t → (i : ℕ) → s.pc i ≡ done → t.pc i ≡ done
Step-done {s = s} (work j lt mv) i e = ground (arith, Move-inside mv)
Step-done (count_over j lt f) i e = ground arith
Step-done (notify_over j lt f) i e = ground arith
Step-done (place c f free) i e = ground arith
Step-done (notify_worker f lt) i e = ground arith
Step-done _ i e = e

pub Step-returned {ℓ} :
    {F : Type ℓ} {s t : System F} → Step s t → s.stopper ≡ returned → t.stopper ≡ returned
Step-returned (notify_over j lt f) e = ground arith
Step-returned (flag f) e = ground arith
Step-returned (begin_notify f) e = ground arith
Step-returned (notify_worker f lt) e = ground arith
Step-returned (end_notify f lt) e = ground arith
Step-returned (all_over f h) e = ground arith
Step-returned (not_over f h) e = ground arith
Step-returned (block_stop f) e = ground arith
Step-returned (spurious_stop f) e = ground arith
Step-returned _ e = e

-- How many workers have been deleted, and how many threads joined.
abbrev pub deleted : ℕ → Destruct → ℕ
deleted n in_stop = 0
deleted n (joining i) = i
deleted n (deleting i) = i
deleted n destroyed = n

abbrev pub joined : ℕ → Destruct → ℕ
joined n (deleting i) = suc i
joined n d = deleted n d

pub record Destruction {ℓ} {F : Type ℓ} (n size : ℕ) (d : Pool F) : Type ℓ where
  pub reach : Reach (init n size) d.threads
  pub once : (i : ℕ) → i < deleted n d.stage → d.deletes i ≡ 1
  pub never : (i : ℕ) → deleted n d.stage ≤ i → d.deletes i ≡ 0
  pub ended : (i : ℕ) → i < joined n d.stage → d.threads.pc i ≡ done
  pub bound : joined n d.stage ≤ n
  pub back : d.stage ≢ in_stop → d.threads.stopper ≡ returned

module _ {ℓ} {F : Type ℓ} (n size : ℕ) (pos : 0 < n) where
  pub size-Destruction : {d : Pool F} → Destruction n size d → d.threads.pool.worker_num ≡ n
  size-Destruction inv = (Reach-Inv (init-Inv n size pos) inv.reach).workers

  Destroy-Destruction : {d e : Pool F} → Destroy d e → Destruction n size d → Destruction n size e
  Destroy-Destruction (thread st) inv = record {
    reach = later inv.reach st;
    once = inv.once;
    never = inv.never;
    ended = λ i lt. Step-done st i (inv.ended i lt);
    bound = inv.bound;
    back = λ h. Step-returned st (inv.back h);
  }
  Destroy-Destruction (stop_back e r) inv = record {
    reach = inv.reach;
    once = λ i lt. ground arith;
    never = λ i le. ground (arith, inv.never i);
    ended = λ i lt. ground arith;
    bound = ground arith;
    back = λ h. r;
  }
  Destroy-Destruction {d} (join {i} e lt f) inv = record {
    reach = inv.reach;
    once = λ j lt. ground (arith, inv.once j);
    never = λ j le. ground (arith, inv.never j);
    ended = λ j lt. elim (ℕ_discrete j i) [
      | yes same ↦ ground arith
      | no other ↦ ground (arith, inv.ended j)
    ];
    bound = ground (arith, size-Destruction inv);
    back = λ h. ground (arith, inv.back);
  }
  Destroy-Destruction (delete {i} e) inv = record {
    reach = inv.reach;
    once = λ j lt. ground (arith, inv.once j, inv.never j);
    never = λ j le. ground (arith, inv.never j);
    ended = λ j lt. ground (arith, inv.ended j);
    bound = ground (arith, inv.bound);
    back = λ h. ground (arith, inv.back);
  }
  Destroy-Destruction (all_joined {i} e le) inv = record {
    reach = inv.reach;
    once = λ j lt. ground (arith, size-Destruction inv, inv.once j);
    never = λ j le. ground (arith, size-Destruction inv, inv.bound, inv.never j);
    ended = λ j lt. ground (arith, size-Destruction inv, inv.ended j);
    bound = ground arith;
    back = λ h. ground (arith, inv.back);
  }

  pub Destroys-Destruction : {d : Pool F} → Destroys (new F n size) d → Destruction n size d
  Destroys-Destruction no_step = record {
    reach = here;
    once = λ i lt. ground arith;
    never = λ i le. refl;
    ended = λ i lt. ground arith;
    bound = ground arith;
    back = λ h. ground arith;
  }
  Destroys-Destruction (and_then r st) = Destroy-Destruction st (Destroys-Destruction r)
