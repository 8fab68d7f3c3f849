-- ===== src/DagScheduler/Progress.antt =====
-- `Scheduler::execute` never blocks for good, and ends (dag_scheduler/scheduler.cpp, task.cpp).
use native.Mathlib.Decide.{ℕ_discrete}
use dag_executor.Common.{
  ℕ, ◌≤◌, ◌<◌, ◌≡◌, ◌≢◌, ◌⊎◌, inl, inr, refl, List, [], ◌∷◌, arith, length, length_mono, count,
  count-le-length, weigh-missing, total, le-total, total-pos, total_mono, dec_lt,
}
use dag_executor.Common.Int.{ℤ, pos, negsuc, ◌-ℤ◌}
use dag_executor.ThreadPool.{Worker}
use dag_executor.DagScheduler.{Tasks}
use dag_executor.DagScheduler.Run
use dag_executor.DagScheduler.Run.{
  Main, starting, waiting, Pc, working, informing, counting, fault, returned, free, Dag, Step, Runs,
  launch, queue,
}
use dag_executor.DagScheduler.Graph.{IsReady, SuccessorsFirst}
use dag_executor.DagScheduler.Invariant.{
  submitted, owing, holding, queued, uncounted, Inv, worked-le, length-worked-le, add_task-accepts,
  informed-mem, not-submitted,
}

is_pos : (c k : ℤ) → (c ≡ k) ⊎ (c ≢ k)
is_pos (pos a) (pos b) = elim (ℕ_discrete a b) [
  | yes e ↦ inl (ground arith)
  | no e ↦ inr (ground arith)
]
is_pos (pos a) (negsuc b) = inr (ground arith)
is_pos (negsuc a) (pos b) = inr (ground arith)
is_pos (negsuc a) (negsuc b) = elim (ℕ_discrete a b) [
  | yes e ↦ inl (ground arith)
  | no e ↦ inr (ground arith)
]

-- 1 for a worker that is inside a task
busy : Pc → ℕ
busy free = 0
busy _ = 1

busy-free : (p : Pc) → 0 < busy p → p ≢ free
unfolding busy
busy-free p h e = ground arith

abbrev pub Next : Dag → Type 0
Next s = (t : Dag) × Step s t

module _ {n size : ℕ} {succ : ℕ → List ℕ} {tasks : List ℕ} {s : Dag} (inv : Inv n size succ tasks s)
    {heap : Tasks} (g : IsReady heap succ tasks) (room : length tasks ≤ size) where
  -- A worker that is inside a task can go on.
  worker-Next : (i : ℕ) → i < n → (p : Pc) → s.pc i ≡ p → p ≢ free → Next s
  worker-Next i lt free e h = absurd (h refl)
  worker-Next i lt (working t) e h = (_, Run.work i (omega (arith, inv.workers)) e)
  worker-Next i lt (informing t (b ∷ rest)) e h =
      elim (is_pos ((s.heap b).condition -ℤ pos 1) (pos 0)) [
        | inl last ↦ (
          _,
          Run.inform_last i (omega (arith, inv.workers)) e last (
              add_task-accepts inv room b
                (omega (arith, informed-mem inv g i lt e, not-submitted inv g i lt e))),
        )
        | inr more ↦ (_, Run.inform i (omega (arith, inv.workers)) e more)
      ]
  worker-Next i lt (informing t []) e h = (_, Run.informed i (omega (arith, inv.workers)) e)
  worker-Next i lt (counting t) e h = (
    _,
    Run.count i (omega (arith, inv.workers)) e
        (ground (arith, inv.owned t, inv.places i, worked-le inv g t)),
  )
  worker-Next i lt fault e h = absurd (ground (arith, inv.places i))

  start-Next : (t : ℕ) (rest : List ℕ) → s.main ≡ starting (t ∷ rest) → Next s
  unfolding submitted
  start-Next t rest e = elim (is_pos (s.heap t).condition (pos 0)) [
    | inl root ↦
        (_, Run.start_root e root (add_task-accepts inv room t (ground (arith, inv.once t))))
    | inr waits ↦ (_, Run.start_skip e waits)
  ]

  -- With all workers free and the queues empty, everything has worked.
  module _ (e : s.main ≡ waiting) (still : total busy n s.pc ≡ 0)
      (none_queued : (b : ℕ) → total (queued b) n s.pool.workers ≡ 0) where
    not_owing : (b : ℕ) → total (owing b) n s.pc ≡ 0
    unfolding busy
    not_owing b = elim (dec_lt 0 (total (owing b) n s.pc)) [
      | yes some_owing ↦
          let (i, lt, h) = total-pos (owing b) n s.pc some_owing in
          ground (arith, still, le-total busy n s.pc i lt)
      | no none_owing ↦ omega arith
    ]

    not_held : (b : ℕ) → total (holding b) n s.pc ≡ 0
    unfolding busy
    not_held b = elim (dec_lt 0 (total (holding b) n s.pc)) [
      | yes some_held ↦
          let (i, lt, h) = total-pos (holding b) n s.pc some_held in
          ground (arith, still, le-total busy n s.pc i lt)
      | no none_held ↦ omega arith
    ]

    -- A task that has not worked waits for one that has not worked.
    waits_for :
        (b : ℕ)
        → 0 < count b tasks
        → count b s.worked ≡ 0
        → (p : ℕ) × (0 < count b (succ p)) × (count p s.worked < count p tasks)
    unfolding submitted
    waits_for b mem missing =
        weigh-missing (λ p. count b (succ p)) s.worked tasks
          (ground (
            arith,
            inv.balance b mem,
            inv.nonneg b mem,
            inv.prompt b mem,
            not_owing b,
            not_held b,
            none_queued b,
          ))

    all_worked :
        (rest : List ℕ)
        → ((b : ℕ) → count b rest ≤ count b tasks)
        → SuccessorsFirst succ tasks rest
        → (b : ℕ) → 0 < count b rest
        → 0 < count b s.worked
    all_worked [] le o b h = absurd (omega arith)
    all_worked (t ∷ rest) le o b h = elim (dec_lt 0 (count b s.worked)) [
      | yes ran ↦ ran
      | no missing ↦
          let (p, link, less) = waits_for b (omega (arith, le b)) (omega arith) in
          let behind = all_worked rest (λ c. omega (arith, le c)) o.1 in
          ground (arith, behind b, behind p, o.0 p, g.distinct p)
    ]

    none_missing : (b : ℕ) → count b tasks ≤ count b s.worked
    none_missing b = ground (arith, all_worked tasks (λ c. omega arith) g.ordered b, g.distinct b)

    not_uncounted : total uncounted n s.pc ≡ 0
    unfolding busy
    not_uncounted = omega (arith, total_mono uncounted busy (λ p. ground arith) n s.pc)

    finish-Next : Next s
    finish-Next = (
      _,
      Run.finish e (
          ground (
            arith,
            inv.waits,
            inv.waits_nonneg,
            not_uncounted,
            length-worked-le inv g,
            length_mono tasks s.worked none_missing,
          )),
    )

  queue_length : Worker ℕ → ℕ
  queue_length w = length w.tasks_queue

  take-Next : (i : ℕ) → i < n → s.pc i ≡ free → (q : List ℕ) → queue s i ≡ q → 0 < length q → Next s
  take-Next i lt e [] front h = absurd (omega arith)
  take-Next i lt e (t ∷ q) front h = (_, Run.take i (omega (arith, inv.workers)) e front)

  main-Next : total busy n s.pc ≡ 0 → (m : Main) → s.main ≡ m → m ≢ returned → Next s
  unfolding queue_length busy
  main-Next still (starting []) e h = (_, Run.start_done e)
  main-Next still (starting (t ∷ rest)) e h = start-Next t rest e
  main-Next still waiting e h = elim (dec_lt 0 (total queue_length n s.pool.workers)) [
    | yes some_queued ↦
        let (i, lt, q) = total-pos queue_length n s.pool.workers some_queued in
        take-Next i lt (ground (arith, still, le-total busy n s.pc i lt)) (queue s i) refl q
    | no none_queued ↦ finish-Next e still λ b. omega (
      arith,
      total_mono (queued b) queue_length (λ w. count-le-length b w.tasks_queue) n s.pool.workers,
    )
  ]
  main-Next still returned e h = absurd (h refl)

  -- Until `execute` has returned, some thread can take a step.
  pub can_step : s.main ≢ returned → Next s
  can_step h = elim (dec_lt 0 (total busy n s.pc)) [
    | yes some_busy ↦
        let (i, lt, b) = total-pos busy n s.pc some_busy in
        worker-Next i lt (s.pc i) refl (busy-free (s.pc i) b)
    | no none_busy ↦ main-Next (omega arith) s.main refl h
  ]
