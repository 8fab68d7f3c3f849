-- ===== src/DagScheduler/Invariant/Facts.antt =====
-- What the invariant says at the places where a task is looked at (dag_scheduler/task.cpp,
-- scheduler.cpp).
use dag_executor.Common.{
  ℕ, ◌≤◌, ◌<◌, ◌≡◌, List, [], ◌∷◌, arith, length, length_mono, count, weigh_mono, total, le-total,
  update, ℕ_discrete, if_pos, if_neg,
}
use dag_executor.Common.Int.{pos_part}
use dag_executor.DagScheduler.{Tasks}
use dag_executor.DagScheduler.Run.{Pc, informing, counting, Dag}
use dag_executor.DagScheduler.Graph.{SuccessorsFirst, IsReady}
use dag_executor.DagScheduler.Invariant.Defs.{AtPc, rest_of, owing, uncounted, submitted, Inv}

-- A task that `rest` holds waits only for tasks behind it.
order-mem :
    (succ : ℕ → List ℕ) (tasks rest : List ℕ) (p b : ℕ)
    → SuccessorsFirst succ tasks rest
    → 0 < count p tasks
    → 0 < count b (succ p)
    → 0 < count b rest
    → 0 < count p rest
order-mem succ tasks [] p b o hp hb h = absurd (omega arith)
order-mem succ tasks (t ∷ rest) p b o hp hb h =
    ground (arith, o.0 p, order-mem succ tasks rest p b o.1)

-- More tasks have worked.
pub AtPc-grow :
    (succ : ℕ → List ℕ) (worked : List ℕ) (t : ℕ) (p : Pc)
    → AtPc succ worked p
    → AtPc succ (t ∷ worked) p
AtPc-grow succ worked t (informing u rest) h = (omega (arith, h.0), h.1)
AtPc-grow succ worked t (counting u) h = omega (arith, h)
AtPc-grow succ worked t _ h = h

-- One worker moves.
pub AtPc-update :
    (succ : ℕ → List ℕ) (worked : List ℕ) (pc : ℕ → Pc) (i : ℕ) (p : Pc)
    → ((j : ℕ) → AtPc succ worked (pc j))
    → AtPc succ worked p
    → (j : ℕ) → AtPc succ worked (update pc i p j)
AtPc-update succ worked pc i p all new j = elim (ℕ_discrete i j) [
  | yes e ↦ rw (if_pos _ e) new
  | no e ↦ rw (if_neg _ e) (all j)
]

module _ {n size : ℕ} {succ : ℕ → List ℕ} {tasks : List ℕ} {s : Dag} (inv : Inv n size succ tasks s)
    {heap : Tasks} (g : IsReady heap succ tasks) where
  pub worked-le : (b : ℕ) → count b s.worked ≤ count b tasks
  unfolding submitted
  worked-le b = omega (arith, inv.once b)

  pub length-worked-le : length s.worked ≤ length tasks
  length-worked-le = length_mono s.worked tasks worked-le

  -- Worker `i` is about to inform `b` of the end of `t`.
  module _ (i : ℕ) {t b : ℕ} {rest : List ℕ} (lt : i < n)
      (e : s.pc i ≡ informing t (b ∷ rest)) where
    pub place : AtPc succ s.worked (informing t (b ∷ rest))
    place = rw e at (inv.places i)

    pub informer-worked : 0 < count t s.worked
    informer-worked = place.0

    link : 0 < count b (succ t)
    link = ground (arith, place.1 b)

    pub informed-mem : 0 < count b tasks
    informed-mem = g.closed t b (omega (arith, informer-worked, worked-le t)) link

    owed : 0 < total (owing b) n s.pc
    owed = ground (arith, le-total (owing b) n s.pc i lt)

    -- Its `condition_` is positive: a link to it has not been followed.
    pub condition-pos : 0 < pos_part (s.heap b).condition
    condition-pos = omega (
      arith,
      inv.balance b informed-mem,
      owed,
      weigh_mono (λ p. count b (succ p)) s.worked tasks worked-le,
    )

    -- So it has not been submitted, and the loop of `work_` is past it.
    pub not-submitted : submitted n s b ≡ 0
    not-submitted = ground (arith, inv.due b, condition-pos)

    pub not-rest : count b (rest_of s.main) ≡ 0
    unfolding submitted
    not-rest = ground (
      arith,
      order-mem succ tasks (rest_of s.main) t b inv.order,
      informer-worked,
      link,
      worked-le t,
      inv.once t,
      g.distinct t,
    )

  -- A worker that is about to count finds the count positive.
  pub waits-pos : (i : ℕ) {t : ℕ} → i < n → s.pc i ≡ counting t → 0 < pos_part s.wait_executed
  waits-pos i lt e = ground (arith, inv.waits, length-worked-le, le-total uncounted n s.pc i lt)
