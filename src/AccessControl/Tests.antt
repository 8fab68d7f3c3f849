-- ===== src/AccessControl/Tests.antt =====
-- A node whose `run_` sets the numbers of threads (access_control/init_node.h).
use dag_executor.Common.{ℕ, ◌≡◌, refl, [], ◌∷◌, arith, count}
use dag_executor.Common.Int.{pos}
use dag_executor.Common.{◌++◌, true}
use dag_executor.Wire.Result.{ok}
use dag_executor.Wire.Tokens.{tokens, tokens-Laws}
use dag_executor.ContextData.User.{UserData}
use dag_executor.ContextData.Context.{read_context, write_context}
use dag_executor.ContextData.Examples.{empty, empty-FitsContext}
use dag_executor.ContextData.RoundTrip.Whole.{received}
use dag_executor.AccessControl.Lost.{access_control-lost}
use dag_executor.AccessControl.{run_dag, InitNode, access_control, new_init_node}
use dag_executor.DagScheduler.{new_executor}
use dag_executor.DagScheduler.Run.{Dag, Runs, here, returned}
use dag_executor.AccessControl.Graph.{add_nodes, empty_graph, nodes_run_once}

abbrev counting : InitNode → UserData → InitNode
counting n u = record n {
  ctx_eng = record (n.ctx_eng) { thread_conf = record { num = u.age; task_num = pos 2 } };
}

-- A node whose `run_` succeeds.
abbrev succeeding : InitNode → UserData → InitNode
succeeding n u = record (counting n u) { circuit_flag = true; status = true }

access_control-lost_example :
    read_context tokens 6 empty
      (write_context tokens ((access_control succeeding new_init_node empty).1) ++ [])
    ≡ ok (received empty empty, [])
access_control-lost_example =
    access_control-lost tokens tokens-Laws succeeding new_init_node empty empty 0 [] refl
      empty-FitsContext

nodes_run_once_example :
    (j : ℕ) × (t : Dag) × Runs (run_dag (add_nodes empty_graph (3 ∷ 8 ∷ [])) new_executor) j t
    × (t.main ≡ returned)
    × ((b : ℕ) → count b t.worked ≡ count b (3 ∷ 8 ∷ []))
nodes_run_once_example = nodes_run_once (3 ∷ 8 ∷ []) (λ t. ground arith) (omega arith) here
