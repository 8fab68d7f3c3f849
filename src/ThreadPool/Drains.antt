-- ===== src/ThreadPool/Drains.antt =====
-- A worker by itself runs all that it has accepted, while `stop` has not been called
-- (thread_pool/thread_pool.cpp).
use dag_executor.Common.{ℕ, ◌<◌, ◌≡◌, refl, ◌∙◌, false, List, [], ◌∷◌, arith, length, inl}
use dag_executor.ThreadPool.Loop.{
  Pc, head, locking, locked, stealing, relocked, waiting, notified, woken, running, Move, enter,
  lock, take, steal, refilled, accept, rewait, proceed, finish, System, work, Reach, later, queue,
  current, init, moved,
}
use dag_executor.ThreadPool.Shutdown.{all_run}
use dag_executor.ThreadPool.Invariant.{AtPc, Inv, init-Inv, Reach-Inv}

-- The worker does not sleep in its `wait`, from which only another thread's `notify_one` may be
-- relied on to wake it.
abbrev pub IsAwake {ℓ} : {F : Type ℓ} → Pc F → Type 0
IsAwake Pc.asleep = ⊥
IsAwake _ = Unit

-- Steps of worker `i` alone, none of them a spurious wake-up.
pub data Alone {ℓ} {F : Type ℓ} (i : ℕ) (s : System F) : System F → Type ℓ where
  still : Alone i s s
  moves :
      {t : System F} {q : List F} {p : Pc F}
      → Alone i s t
      → i < t.pool.worker_num
      → IsAwake (t.pc i)
      → Move t.pool.stop (queue t i) (t.pc i) q p
      → Alone i s (moved t i q p)

pub Alone-Reach {ℓ} : {F : Type ℓ} {i : ℕ} {a s t : System F} → Reach a s → Alone i s t → Reach a t
Alone-Reach r still = r
Alone-Reach {i = i} r (moves a lt up mv) = later (Alone-Reach r a) (work i lt mv)

-- Worker `i` alone can come from `s` to a state in which worker `i` stands at `p` with the queue
-- `q`, and has accepted nothing more.
pub record Gets {ℓ} {F : Type ℓ} (s : System F) (i : ℕ) (q : List F) (p : Pc F) : Type ℓ where
  pub now : System F
  pub reach : Alone i s now
  pub pc : now.pc i ≡ p
  pub queued : queue now i ≡ q
  pub same : now.accepted i ≡ s.accepted i
  pub stop : now.pool.stop ≡ false
  pub workers : i < now.pool.worker_num

module _ {ℓ} {F : Type ℓ} {s : System F} {i : ℕ} where
  move_on :
      {q : List F} {p : Pc F} {q' : List F} {p' : Pc F}
      → Gets s i q p
      → IsAwake p
      → Move false q p q' p'
      → Gets s i q' p'
  move_on {q} {p} {q'} {p'} g up mv = record {
    now = moved g.now i q' p';
    reach = moves g.reach g.workers (rw (g.pc) up) (rw (g.stop, g.queued, g.pc) mv);
    pc = ground arith;
    queued = ground arith;
    same = g.same;
    stop = g.stop;
    workers = g.workers;
  }

  ran : {f : F} {q : List F} → Gets s i q (running f) → Gets s i q head
  ran g = move_on g tt finish

  taken : {f : F} {r : List F} → Gets s i (f ∷ r) locked → Gets s i r (running f)
  taken g = move_on g tt (take refl)

  proceeds : {f : F} {r : List F} → Gets s i (f ∷ r) woken → Gets s i r (running f)
  proceeds g = move_on g tt (proceed refl)

  -- Wherever a worker stands that has a function in its queue, it comes to run that.
  pub comes :
      (p : Pc F) {f : F} {r : List F}
      → Gets s i (f ∷ r) p
      → AtPc false (length (f ∷ r)) p
      → Gets s i r (running f)
  comes head g h = taken (move_on (move_on g tt (enter refl)) tt lock)
  comes locking g h = taken (move_on g tt lock)
  comes locked g h = taken g
  comes stealing g h = proceeds (move_on (move_on g tt steal) tt (refilled (λ e. ground arith)))
  comes relocked g h = proceeds (move_on g tt (refilled (λ e. ground arith)))
  comes waiting g h = proceeds (move_on g tt (accept (inl (λ e. ground arith))))
  comes notified g h =
      proceeds (move_on (move_on g tt rewait) tt (accept (inl (λ e. ground arith))))
  comes woken g h = proceeds g
  comes (running e) g h = taken (move_on (move_on (move_on g tt finish) tt (enter refl)) tt lock)
  comes _ g h = absurd (ground arith)

  -- Then it runs the rest of its queue.
  empties : (r : List F) {f : F} → Gets s i r (running f) → Gets s i [] head
  empties [] g = ran g
  empties (x ∷ r) {f} g = empties r (comes (running f) g tt)

-- Worker `i` alone comes to have completed all that it had accepted.
abbrev pub Completes {ℓ} : {F : Type ℓ} → System F → ℕ → Type ℓ
Completes {F = F} s i =
    (t : System F) × Alone i s t × (t.accepted i ≡ s.accepted i) × (t.executed i ≡ s.accepted i)

module _ {ℓ} {F : Type ℓ} (n size : ℕ) (pos : 0 < n) {s : System F}
    (r : Reach (init n size) s) where
  inv : Inv n size s
  inv = Reach-Inv (init-Inv n size pos) r

  completed : {i : ℕ} {p : Pc F} → Gets s i [] p → current p ≡ [] → Completes s i
  completed {i} {p} g idle = (
    g.now,
    g.reach,
    g.same,
    all_run (g.now.executed i) (end.fifo i) (ground (arith, g.pc)) g.queued ∙ g.same,
  )
    where
      end : Inv n size g.now
      end = Reach-Inv (init-Inv n size pos) (Alone-Reach r g.reach)

  from_queue :
      (q : List F) (p : Pc F) {i : ℕ} → Gets s i q p → AtPc false (length q) p → Completes s i
  from_queue (f ∷ q) p g h = completed (empties q (comes p g h)) refl
  from_queue [] (running f) g h = completed (ran g) refl
  from_queue [] p {i} g h = completed g refl

  -- On a pool with at least one worker whose `stop` has not been called, with functions that
  -- return: wherever the threads stand, each worker can complete all that it has accepted by steps
  -- of its own alone, none of them a spurious wake-up from its wait.
  pub can_complete :
      s.pool.stop ≡ false
      → (i : ℕ) → i < n
      → (t : System F) × Alone i s t × (t.accepted i ≡ s.accepted i) × (t.executed i ≡ s.accepted i)
  can_complete e i lt =
      from_queue (queue s i) (s.pc i)
        (record {
          now = s;
          reach = still;
          pc = refl;
          queued = refl;
          same = refl;
          stop = e;
          workers = omega (arith, inv.workers);
        })
        (ground (arith, inv.places i))
