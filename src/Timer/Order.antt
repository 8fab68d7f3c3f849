-- ===== src/Timer/Order.antt =====
-- The order in which `TimerManager` submits its timers (dag_scheduler/timer.h).
use mathlib.Core.List.{Perm}
use mathlib.Core.List.Perm
use dag_executor.Common.{
  ℕ, suc, ◌+◌, ◌≡◌, inl, inr, refl, some, List, [], ◌∷◌, ◌++◌, map, arith, ap, Bool-cases, length,
}
use dag_executor.Common.Int.{ℤ, ◌+ℤ◌, ◌≤ℤ◌, leb_ℤ}
use dag_executor.ThreadPool.{ThreadPool}
use dag_executor.ThreadPool.Dispatch.{submit_all, IsServing, add_task-IsServing}
use dag_executor.Timer.{Timer, TimerManager, push, add, fire, execute_timeout}

module _ {ℓ} {F : Type ℓ} where
  -- No timer of the list is due before `z`.
  abbrev pub NotBefore : ℤ → List (Timer F) → Type 0
  NotBefore z [] = Unit
  NotBefore z (t ∷ ts) = (z ≤ℤ t.time) × NotBefore z ts

  abbrev pub IsSorted : List (Timer F) → Type 0
  IsSorted [] = Unit
  IsSorted (t ∷ ts) = NotBefore t.time ts × IsSorted ts

  NotBefore-push :
      (z : ℤ) (t : Timer F) (ts : List (Timer F))
      → z ≤ℤ t.time
      → NotBefore z ts
      → NotBefore z (push t ts)
  unfolding push
  NotBefore-push z t [] h hs = (h, tt)
  NotBefore-push z t (u ∷ ts) h hs = ground (arith, NotBefore-push z t ts h hs.1)

  NotBefore-trans : (y z : ℤ) (ts : List (Timer F)) → y ≤ℤ z → NotBefore z ts → NotBefore y ts
  NotBefore-trans y z [] h hs = tt
  NotBefore-trans y z (t ∷ ts) h hs = (omega arith, NotBefore-trans y z ts h hs.1)

  push-IsSorted : (t : Timer F) (ts : List (Timer F)) → IsSorted ts → IsSorted (push t ts)
  unfolding push
  push-IsSorted t [] h = (tt, tt)
  push-IsSorted t (u ∷ ts) h = ground (
    arith,
    push-IsSorted t ts h.1,
    NotBefore-push u.time t ts,
    NotBefore-trans t.time u.time ts,
    h,
  )

  push-perm : (t : Timer F) (ts : List (Timer F)) → Perm (push t ts) (t ∷ ts)
  unfolding push
  push-perm t [] = Perm.refl (t ∷ [])
  push-perm t (u ∷ ts) = elim (Bool-cases (leb_ℤ u.time t.time)) [
    | inl after ↦ rw after (Perm.trans (Perm.cons u (push-perm t ts)) (Perm.swap t u ts))
    | inr before ↦ rw before (Perm.refl (t ∷ u ∷ ts))
  ]

  -- `add` keeps the timers in the order of their times and adds just the one asked for, due
  -- `relative_time` after the reading of the clock.
  pub add_lem :
      (m : TimerManager F) (now relative_time : ℤ) (func : F)
      → IsSorted m.timers
      → IsSorted (add m now relative_time func).timers
        × Perm
            (add m now relative_time func).timers
            ((record { time = relative_time +ℤ now; func = func }) ∷ m.timers)
  unfolding add
  add_lem m now relative_time func h = (push-IsSorted _ m.timers h, push-perm _ m.timers)

  -- The timers of `ts` are the ones that fell due: each when the round that looked at it read the
  -- clock, the first of them in round `r`.
  abbrev pub AllDue : (ℕ → ℤ) → ℕ → List (Timer F) → Type 0
  AllDue clock r [] = Unit
  AllDue clock r (t ∷ ts) = (t.time ≤ℤ clock r) × AllDue clock (suc r) ts

  -- The first timer of `ts`, if there is one, was not due in round `r`.
  abbrev pub StopsAt : (ℕ → ℤ) → ℕ → List (Timer F) → Type 0
  StopsAt clock r [] = Unit
  StopsAt clock r (t ∷ ts) = ¬ (t.time ≤ℤ clock r)

  IsSorted-behind : (ts us : List (Timer F)) → IsSorted (ts ++ us) → IsSorted us
  IsSorted-behind [] us h = h
  IsSorted-behind (t ∷ ts) us h = IsSorted-behind ts us h.1

  -- What `execute_timeout` from round `r` on makes of the timers `ts`: it fires some of them, in
  -- their order, and leaves the others.
  abbrev pub Fired : (ℕ → ℤ) → ℕ → List (Timer F) → ThreadPool F → TimerManager F → Type ℓ
  Fired clock r ts p m =
      (fired : List (Timer F)) × (fired ++ m.timers ≡ ts)
      × AllDue clock r fired
      × StopsAt clock (r + length fired) m.timers
      × (submit_all p (map (λ t. t.func) fired) ≡ some m.thread_pool)

  fire-Fired :
      (clock : ℕ → ℤ) (r : ℕ) (ts : List (Timer F)) (p : ThreadPool F)
      → IsServing p
      → (m : TimerManager F) × (fire clock r ts p ≡ some m) × Fired clock r ts p m
  unfolding fire submit_all
  fire-Fired clock r [] p lt =
      (record { timers = []; thread_pool = p }, refl, ([], refl, tt, tt, refl))
  fire-Fired clock r (t ∷ ts) p lt = elim (Bool-cases (leb_ℤ t.time (clock r))) [
    | inl due ↦
        let (q, e, serving) = add_task-IsServing p t.func lt in
        let (m, f, rest) = fire-Fired clock (suc r) ts q serving in
        let (fired, whole, all_due, stops, sub) = rest in
        (
          m,
          rw (due, e) f,
          (
            t ∷ fired,
            ap (◌∷◌ t) whole,
            (ground arith, all_due),
            let later : r + length (t ∷ fired) ≡ suc r + length fired = omega arith in
                rw later stops,
            rw e sub,
          ),
        )
    | inr early ↦ (
      record { timers = t ∷ ts; thread_pool = p },
      rw early refl,
      (
        [],
        refl,
        tt,
        let now : r + length {A = Timer F} [] ≡ r = omega arith in rw now (λ h. ground arith),
        refl,
      ),
    )
  ]

  -- On a pool with workers `execute_timeout` never faults. It submits the timers that it fires in
  -- the order of the list, each because the clock had reached its time when its round read it,
  -- and stops at the first timer that the clock has not reached; that one and those behind it stay.
  -- On timers in order the ones that stay are in order, none of them before the one it stopped at.
  pub execute_timeout_lem :
      (clock : ℕ → ℤ) (m : TimerManager F)
      → IsServing m.thread_pool
      → IsSorted m.timers
      → (m' : TimerManager F) × (execute_timeout clock m ≡ some m')
        × Fired clock 0 m.timers m.thread_pool m'
        × IsSorted m'.timers
  unfolding execute_timeout
  execute_timeout_lem clock m lt sorted =
      let (m', e, f) = fire-Fired clock 0 m.timers m.thread_pool lt in
      (m', e, f, IsSorted-behind f.0 m'.timers (rw (← f.1) at sorted))
