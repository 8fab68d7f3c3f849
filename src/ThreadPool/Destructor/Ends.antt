-- ===== src/ThreadPool/Destructor/Ends.antt =====
-- `~ThreadPool` comes to its end once `stop` is back (thread_pool/thread_pool.cpp).
use dag_executor.Common.{
  ℕ, zero, suc, ◌+◌, ◌-◌, ◌≤◌, ◌<◌, ◌≡◌, ◌⊎◌, inl, inr, refl, arith, ltb, if◌then◌else◌,
}
use dag_executor.ThreadPool.Loop.{counted, done, returned, notify_over, System, Step}
use dag_executor.ThreadPool.Safety.{stop-joins}
use dag_executor.ThreadPool.Destructor.{
  Destruct, in_stop, joining, deleting, destroyed, Pool, thread, stop_back, join, delete,
  all_joined, Destroy, Destroys, and_then, new,
}
use dag_executor.ThreadPool.Destructor.Invariant.{
  Destruction, size-Destruction, Destroys-Destruction,
}

-- The step is the last statement of thread `i`.
abbrev pub IsLast {ℓ} : {F : Type ℓ} {s t : System F} → Step s t → ℕ → Type 0
IsLast (notify_over j lt e) i = j ≡ i
IsLast _ i = ⊥

-- The step is the destructor's own, or the last statement of the thread that it joins.
abbrev pub IsOwn {ℓ} : {F : Type ℓ} {d e : Pool F} → Destroy d e → Type 0
IsOwn {d = d} (thread st) = (i : ℕ) × (d.stage ≡ joining i) × IsLast st i
IsOwn _ = Unit

-- The destructor goes on from `d`, with no other thread than that which it joins.
pub data Finishes {ℓ} {F : Type ℓ} (d : Pool F) : Pool F → Type ℓ where
  now : Finishes d d
  goes : {e f : Pool F} → Finishes d e → (st : Destroy e f) → IsOwn st → Finishes d f

Finishes-Destroys {ℓ} : {F : Type ℓ} {a d e : Pool F} → Destroys a d → Finishes d e → Destroys a e
Finishes-Destroys r now = r
Finishes-Destroys r (goes q st own) = and_then (Finishes-Destroys r q) st

Finishes-append {ℓ} : {F : Type ℓ} {d e f : Pool F} → Finishes d e → Finishes e f → Finishes d f
Finishes-append r now = r
Finishes-append r (goes q st own) = goes (Finishes-append r q) st own

-- The destructor can go on from `d` to the given place.
abbrev CanGet {ℓ} : {F : Type ℓ} → Pool F → Destruct → Type ℓ
CanGet {F = F} d p = (e : Pool F) × Finishes d e × (e.stage ≡ p)

module _ {ℓ} {F : Type ℓ} where
  Finishes-CanGet : {d e : Pool F} {p : Destruct} → Finishes d e → CanGet e p → CanGet d p
  Finishes-CanGet r h = (h.0, Finishes-append r h.1, h.2)

  -- one turn of the loop
  turn :
      {d : Pool F} (i : ℕ)
      → d.stage ≡ joining i
      → i < d.threads.pool.worker_num
      → d.threads.pc i ≡ done
      → CanGet d (joining (suc i))
  turn i e lt f = (_, goes (goes now (join e lt f) tt) (delete refl) tt, refl)

  -- A thread that has only its last statement left ends, and is joined.
  next_turn :
      {d : Pool F} (i : ℕ)
      → d.stage ≡ joining i
      → i < d.threads.pool.worker_num
      → (d.threads.pc i ≡ counted) ⊎ (d.threads.pc i ≡ done)
      → CanGet d (joining (suc i))
  next_turn i e lt (inr f) = turn i e lt f
  next_turn i e lt (inl f) =
      Finishes-CanGet (goes now (thread (notify_over i lt f)) (i, e, refl))
        (turn i e lt (ground arith))

  module _ (n size : ℕ) (pos : 0 < n) where
    all_turns :
        (k i : ℕ) {d : Pool F} (r : Destroys (new F n size) d)
        → d.stage ≡ joining i
        → i + k ≡ n
        → CanGet d destroyed
    all_turns zero i {d} r e last = (_, goes now (all_joined e (omega (arith, same_size))) tt, refl)
      where
        same_size : d.threads.pool.worker_num ≡ n
        same_size = size-Destruction n size pos (Destroys-Destruction n size pos r)
    all_turns (suc k) i {d} r e more =
        Finishes-CanGet (h.1) (all_turns k (suc i) (Finishes-Destroys r h.1) h.2 (omega arith))
      where
        inv : Destruction n size d
        inv = Destroys-Destruction n size pos r

        h : CanGet d (joining (suc i))
        h =
            next_turn i e (omega (arith, size-Destruction n size pos inv))
              (stop-joins n size pos inv.reach (inv.back (ground arith)) i (omega arith)).1

    from_joining :
        (i : ℕ) {d : Pool F} (r : Destroys (new F n size) d)
        → d.stage ≡ joining i
        → CanGet d destroyed
    from_joining i {d} r e = all_turns (n - i) i r e (omega (arith, low))
      where
        low : i ≤ n
        low = ground (arith, (Destroys-Destruction n size pos r).bound)

    from_stage :
        (p : Destruct) {d : Pool F} (r : Destroys (new F n size) d)
        → d.stage ≡ p
        → d.threads.stopper ≡ returned
        → CanGet d destroyed
    from_stage in_stop r e back =
        let step = goes now (stop_back e back) tt in
        Finishes-CanGet step (from_joining 0 (Finishes-Destroys r step) refl)
    from_stage (joining i) r e back = from_joining i r e
    from_stage (deleting i) r e back =
        let step = goes now (delete e) tt in
        Finishes-CanGet step (from_joining (suc i) (Finishes-Destroys r step) refl)
    from_stage destroyed r e back = (_, now, e)

    deletes-destroyed :
        {d : Pool F}
        → Destruction n size d
        → d.stage ≡ destroyed
        → (i : ℕ) → d.deletes i ≡ (if ltb i n then 1 else 0)
    deletes-destroyed inv e i = ground (arith, inv.once i, inv.never i)

    -- On a pool with at least one worker: wherever its destructor stands once `stop` has returned,
    -- it can come to its end by its own steps and the last statements of the threads that it joins;
    -- no other thread has to move. Then each of its workers has been deleted exactly once, and
    -- nothing else has been.
    pub can_destroy :
        {d : Pool F} (r : Destroys (new F n size) d)
        → d.threads.stopper ≡ returned
        → (e : Pool F) × Finishes d e
          × (e.stage ≡ destroyed)
          × ((i : ℕ) → e.deletes i ≡ (if ltb i n then 1 else 0))
    can_destroy {d} r back =
        let h = from_stage d.stage r refl back in
        (
          h.0,
          h.1,
          h.2,
          deletes-destroyed (Destroys-Destruction n size pos (Finishes-Destroys r h.1)) h.2,
        )
