-- ===== src/AccessControl/Graph.antt =====
-- A graph of nodes without links, as `DAG::add_node` builds it (access_control/dag.h), on the
-- executor's pool (dag_scheduler/executor.cpp).
use dag_executor.Common.{
  ℕ, ◌≤◌, ◌<◌, ◌≡◌, refl, true, List, [], ◌∷◌, ◌++◌, arith, length, count, count-append,
}
use mathlib.Core.List.{append_assoc, append-nil}
use dag_executor.Common.Int.{pos}
use dag_executor.ThreadPool.{new_pool}
use dag_executor.DagScheduler
use dag_executor.DagScheduler.{Scheduler, new_task, new_executor}
use dag_executor.DagScheduler.Graph.{SuccessorsFirst, IsReady, indegree}
use dag_executor.DagScheduler.Invariant.{IsVacant}
use dag_executor.DagScheduler.Run.{Dag, Runs, here, later, launch, returned}
use dag_executor.DagScheduler.Safety.{returned_complete}
use dag_executor.DagScheduler.Termination.{can_return}
use dag_executor.AccessControl.{add_node, run_dag}

-- `add_node` for each node of a list of addresses, in memory that held 0.
pub add_nodes : Scheduler → List ℕ → Scheduler
add_nodes s [] = s
add_nodes s (t ∷ nodes) = add_nodes (add_node s t (pos 0)) nodes

-- What the scheduler of a graph with these nodes holds.
record Holds (nodes : List ℕ) (s : Scheduler) : Type 0 where
  tasks : s.tasks ≡ nodes
  links : (t : ℕ) → (s.heap t).successors ≡ []
  owned : (t : ℕ) → 0 < count t nodes → (s.heap t).scheduled ≡ true
  conditions : (t : ℕ) → 0 < count t nodes → (s.heap t).condition ≡ pos 0

add_node-Holds :
    (nodes : List ℕ) (s : Scheduler) (t : ℕ)
    → Holds nodes s
    → Holds (nodes ++ t ∷ []) (add_node s t (pos 0))
unfolding add_node new_task DagScheduler.add_task
add_node-Holds nodes s t h = record {
  tasks = rw h.tasks refl;
  links = λ u. ground (arith, h.links u);
  owned = λ u mem. ground (arith, h.owned u, count-append u nodes (t ∷ []));
  conditions = λ u mem. ground (arith, h.conditions u, count-append u nodes (t ∷ []));
}

add_nodes-Holds :
    (before nodes : List ℕ) (s : Scheduler)
    → Holds before s
    → Holds (before ++ nodes) (add_nodes s nodes)
unfolding add_nodes
add_nodes-Holds before [] s h = rw (append-nil before) h
add_nodes-Holds before (t ∷ nodes) s h =
    rw (← append_assoc before (t ∷ []) nodes) (
      add_nodes-Holds (before ++ t ∷ []) nodes (add_node s t (pos 0)) (add_node-Holds before s t h))

no_links : (tasks nodes : List ℕ) → SuccessorsFirst (λ _. []) tasks nodes
no_links tasks [] = tt
no_links tasks (t ∷ nodes) = (λ p mem link. absurd (omega arith), no_links tasks nodes)

indegree-none : (nodes : List ℕ) (t : ℕ) → indegree (λ _. []) nodes t ≡ 0
indegree-none [] t = refl
indegree-none (n ∷ nodes) t = omega (arith, indegree-none nodes t)

-- The scheduler of a new graph, before any node.
abbrev pub empty_graph : Scheduler
empty_graph = record { tasks = []; wait_executed = pos 0; heap = λ t. new_task (pos 0) }

Runs-append : {s t u : Dag} {j k : ℕ} → Runs s j t → Runs t k u → (i : ℕ) × Runs s i u
Runs-append {j = j} r here = (j, r)
Runs-append r (later q st) = let (i, p) = Runs-append r q in (ℕ.suc i, later p st)

module _ (nodes : List ℕ) (distinct : (t : ℕ) → count t nodes ≤ 1) (room : length nodes ≤ 10) where
  filled-Holds : Holds nodes (add_nodes empty_graph nodes)
  unfolding new_task
  filled-Holds = add_nodes-Holds [] nodes empty_graph (record {
    tasks = refl;
    links = λ t. refl;
    owned = λ t mem. absurd (omega arith);
    conditions = λ t mem. refl;
  })

  filled-IsReady : IsReady (add_nodes empty_graph nodes).heap (λ _. []) nodes
  filled-IsReady = record {
    links = filled-Holds.links;
    distinct = distinct;
    closed = λ t b mem link. absurd (omega arith);
    owned = filled-Holds.owned;
    conditions = λ t mem. rw (indegree-none nodes t) (filled-Holds.conditions t mem);
    ordered = no_links nodes nodes;
  }

  new_executor-IsVacant : IsVacant 4 10 new_executor
  unfolding new_executor new_pool
  new_executor-IsVacant = record {
    workers = refl;
    in_range = omega arith;
    running = refl;
    sizes = λ i. refl;
    vacant = λ i. refl;
  }

  run_from :
      {k : ℕ} {s : Dag}
      → Runs (run_dag (add_nodes empty_graph nodes) new_executor) k s
      → Runs (launch (add_nodes empty_graph nodes).heap nodes new_executor) k s
  unfolding run_dag
  run_from r = rw filled-Holds.tasks at r

  -- A graph of at most ten nodes at different addresses, in memory that held 0, run on the new
  -- executor: every run can be continued until it returns, and then each node's task has worked
  -- once and no other task has.
  pub nodes_run_once :
      {k : ℕ} {s : Dag}
      → Runs (run_dag (add_nodes empty_graph nodes) new_executor) k s
      → (j : ℕ) × (t : Dag) × Runs s j t
        × (t.main ≡ returned)
        × ((b : ℕ) → count b t.worked ≡ count b nodes)
  nodes_run_once r =
      let (j, t, rest, e) =
        can_return 4 10 (λ _. []) nodes filled-IsReady room new_executor-IsVacant (run_from r) in
      (
        j,
        t,
        rest,
        e,
        λ b.
            (returned_complete 4 10 (λ _. []) nodes filled-IsReady room new_executor-IsVacant
              (Runs-append (run_from r) rest).1 e b 0 (omega arith)).0,
      )
