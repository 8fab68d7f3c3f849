-- ===== src/DagScheduler/Termination.antt =====
-- Every run of `Scheduler::execute` is finite, and ends with its return (dag_scheduler/
-- scheduler.cpp, task.cpp).
use dag_executor.Common.{
  ℕ, zero, suc, ◌+◌, ◌≤◌, ◌<◌, ◌≡◌, ◌≢◌, ◌⊎◌, inl, inr, refl, List, arith, length, weigh,
  weigh_mono, total, total-update, total-zero, total-le, update,
}
use dag_executor.ThreadPool.{ThreadPool}
use dag_executor.DagScheduler.{Tasks}
use dag_executor.DagScheduler.Run.{
  Main, starting, waiting, returned, Pc, free, working, informing, counting, fault, Dag, Step,
  start_root, start_skip, start_done, finish, take, work, inform_last, inform, informed,
  count as count_step, dangle, Runs, here, later, launch,
}
use dag_executor.DagScheduler.Graph.{IsReady}
use dag_executor.DagScheduler.Invariant.{Inv, IsVacant, Runs-Inv, worked-le}
use dag_executor.DagScheduler.Progress.{Next, can_step}

-- the steps that the loop of `work_` and its wait have left
abbrev main_left : Main → ℕ
main_left (starting rest) = length rest + 2
main_left waiting = 1
main_left returned = 0

-- the steps that a worker has left with its task
abbrev pc_left : Pc → ℕ
pc_left (informing t rest) = length rest + 2
pc_left (counting t) = 1
pc_left _ = 0

-- A task taken but not worked is a step made that `worked` does not show.
abbrev pc_taken : Pc → ℕ
pc_taken (working t) = 1
pc_taken _ = 0

-- The steps of one task: taken, worked, one for each successor, the end of that loop, counted.
abbrev pub cost : (ℕ → List ℕ) → ℕ → ℕ
cost succ t = length (succ t) + 4

-- A bound on the number of steps of a run on `n` workers.
abbrev pub step_bound : ℕ → (ℕ → List ℕ) → List ℕ → ℕ
step_bound n succ tasks = length tasks + 2 + weigh (cost succ) tasks + n

-- The steps made and the steps left, against what has been done.
abbrev Ledger : ℕ → (ℕ → List ℕ) → List ℕ → ℕ → Dag → Type 0
Ledger n succ tasks k s =
    k + main_left s.main + total pc_left n s.pc
    ≡ length tasks + 2 + weigh (cost succ) s.worked + total pc_taken n s.pc

-- A worker moves and no work returns.
pc-Ledger :
    (n : ℕ) (s : Dag) (i : ℕ) (p : Pc)
    → i < n
    → pc_left p + pc_taken (s.pc i) + 1 ≡ pc_left (s.pc i) + pc_taken p
    → total pc_left n (update s.pc i p) + total pc_taken n s.pc + 1
      ≡ total pc_left n s.pc + total pc_taken n (update s.pc i p)
pc-Ledger n s i p lt e =
    omega (arith, total-update pc_left n s.pc i p lt, total-update pc_taken n s.pc i p lt)

module _ {n size : ℕ} {succ : ℕ → List ℕ} {tasks : List ℕ} (k : ℕ) where
  Step-Ledger :
      {s t : Dag}
      → Step s t
      → Inv n size succ tasks s
      → Ledger n succ tasks k s
      → Ledger n succ tasks (suc k) t
  Step-Ledger (start_root e root sub) inv h = ground arith
  Step-Ledger (start_skip e waits) inv h = ground arith
  Step-Ledger (start_done e) inv h = ground arith
  Step-Ledger (finish e none_left) inv h = ground arith
  Step-Ledger {s} (take i {t} lt e front) inv h =
      omega (arith, pc-Ledger n s i (working t) (omega (arith, inv.workers)) (ground arith))
  Step-Ledger {s} (work i {t} lt e) inv h = rw (inv.links t) (
      ground (
        arith,
        total-update pc_left n s.pc i (informing t (succ t)) (rw inv.workers at lt),
        total-update pc_taken n s.pc i (informing t (succ t)) (rw inv.workers at lt),
      ))
  Step-Ledger {s} (inform_last i {t} {rest = rest} lt e last sub) inv h =
      omega (arith, pc-Ledger n s i (informing t rest) (omega (arith, inv.workers)) (ground arith))
  Step-Ledger {s} (inform i {t} {rest = rest} lt e more) inv h =
      omega (arith, pc-Ledger n s i (informing t rest) (omega (arith, inv.workers)) (ground arith))
  Step-Ledger {s} (informed i {t} lt e) inv h =
      omega (arith, pc-Ledger n s i (counting t) (omega (arith, inv.workers)) (ground arith))
  Step-Ledger {s} (count_step i lt e own) inv h =
      omega (arith, pc-Ledger n s i free (omega (arith, inv.workers)) (ground arith))
  Step-Ledger {s} (dangle i lt e not_owned) inv h =
      omega (arith, pc-Ledger n s i fault (omega (arith, inv.workers)) (ground arith))

prepend : {s t u : Dag} {k : ℕ} → Step s t → Runs t k u → Runs s (suc k) u
prepend st here = later here st
prepend st (later r next) = later (prepend st r) next

is_returned : (m : Main) → (m ≡ returned) ⊎ (m ≢ returned)
is_returned (starting rest) = inr (λ e. cc)
is_returned waiting = inr (λ e. cc)
is_returned returned = inl refl

module _ (n size : ℕ) (succ : ℕ → List ℕ) (tasks : List ℕ) {heap : Tasks}
    (g : IsReady heap succ tasks) (room : length tasks ≤ size) {pool : ThreadPool ℕ}
    (v : IsVacant n size pool) where
  Runs-Ledger : {k : ℕ} {s : Dag} → Runs (launch heap tasks pool) k s → Ledger n succ tasks k s
  Runs-Ledger here = omega (
    arith,
    total-zero pc_left n (λ _. free) (λ _. refl),
    total-zero pc_taken n (λ _. free) (λ _. refl),
  )
  Runs-Ledger (later {k} r st) = Step-Ledger k st (Runs-Inv g room v r) (Runs-Ledger r)

  -- For a ready graph whose tasks all fit into one queue, on a pool with nothing to do: however the
  -- threads interleave, `execute` makes at most `step_bound` steps: one for each task
  -- and two more, four for each task and one for each link, and one for each worker.
  pub length-Runs-le :
      {k : ℕ} {s : Dag} → Runs (launch heap tasks pool) k s → k ≤ step_bound n succ tasks
  length-Runs-le {s = s} r = omega (
    arith,
    Runs-Ledger r,
    weigh_mono (cost succ) s.worked tasks (worked-le (Runs-Inv g room v r) g),
    total-le pc_taken (λ p. ground arith) n s.pc,
  )

  return_within :
      (fuel : ℕ) {k : ℕ} {s : Dag}
      → Runs (launch heap tasks pool) k s
      → step_bound n succ tasks < k + fuel
      → (j : ℕ) × (t : Dag) × Runs s j t × (t.main ≡ returned)
  return_within zero r h = absurd (omega (arith, length-Runs-le r))
  return_within (suc fuel) {s = s} r h = elim (is_returned s.main) [
    | inl e ↦ (0, s, here, e)
    | inr e ↦
        let (u, st) = can_step (Runs-Inv g room v r) g room e in
        let (j, t, rest, done) = return_within fuel (later r st) (omega arith) in
        (suc j, t, prepend st rest, done)
  ]

  -- For a ready graph whose tasks all fit into one queue, on a pool with nothing to do: in every
  -- reachable state in which `execute` has not returned some step is possible.
  pub never_stuck :
      {k : ℕ} {s : Dag} → Runs (launch heap tasks pool) k s → s.main ≢ returned → Next s
  never_stuck r = can_step (Runs-Inv g room v r) g room

  -- For a ready graph whose tasks all fit into one queue, on a pool with nothing to do: from every
  -- reachable state steps lead on to the return of `execute`.
  pub can_return :
      {k : ℕ} {s : Dag}
      → Runs (launch heap tasks pool) k s
      → (j : ℕ) × (t : Dag) × Runs s j t × (t.main ≡ returned)
  can_return r = return_within (suc (step_bound n succ tasks)) r (omega arith)
