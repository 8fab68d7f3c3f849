-- ===== src/AccessControl.antt =====
-- access_control/init_node.h, return_node.h and dag.h: nodes that work on parts of a context, and
-- the graph of nodes. `run_` is declared in the headers and defined nowhere in the repository: it
-- is a parameter, a function of the node and of the arguments that it is called with.
pub mod Breaker
pub mod Graph
pub mod Lost
mod Tests
use dag_executor.Common.{ℕ, Bool, true, false, ◌&&◌, List, [], ◌∷◌, if◌then◌else◌, update}
use dag_executor.Common.Int.{ℤ}
use dag_executor.ContextData.User.{UserData}
use dag_executor.ContextData.Config.{Engineering, blank_engineering}
use dag_executor.ContextData.Context.{Context}
use dag_executor.ThreadPool.{ThreadPool}
use dag_executor.DagScheduler.{Scheduler, Tasks, new_task}
use dag_executor.DagScheduler
use dag_executor.DagScheduler.Run.{Dag, launch}

-- `class InitNode`
pub record InitNode : Type 0 where
  pub circuit_flag : Bool
  pub status : Bool
  pub ctx_eng : Engineering

-- `class ReturnNode`
pub record ReturnNode : Type 0 where
  pub circuit_flag : Bool
  pub status : Bool

-- `InitNode::InitNode`
abbrev pub new_init_node : InitNode
new_init_node = record { circuit_flag = false; status = false; ctx_eng = blank_engineering }

module _ {D : Type 0} where
  -- `InitNode::copy_from_ctx`
  abbrev pub copy_from_ctx : InitNode → Context D → InitNode
  copy_from_ctx n ctx = record n { ctx_eng = ctx.eng }

  -- `InitNode::copy_on_success`
  abbrev pub copy_on_success : InitNode → Context D → Context D
  copy_on_success n ctx = record ctx { eng = n.ctx_eng }

  -- `InitNode::access_control`
  unfoldable pub access_control :
      (InitNode → UserData → InitNode) → InitNode → Context D → InitNode × Context D
  access_control run_ n ctx =
      let loaded : InitNode = if n.circuit_flag then copy_from_ctx n ctx else n in
      let ran : InitNode = run_ loaded (ctx.comm.user_data) in
      (ran, if ran.circuit_flag && ran.status then copy_on_success ran ctx else ctx)

  -- `ReturnNode::access_control`, whose two copies are empty: the context is as it was.
  unfoldable pub return_access_control :
      (ReturnNode → List ℤ → UserData → ReturnNode)
      → ReturnNode
      → Context D
      → ReturnNode × Context D
  return_access_control run_ n ctx = (run_ n (ctx.video.list) (ctx.comm.user_data), ctx)

-- `DAG::add_node`: a new task at the address `t`, whose memory held `memory`.
unfoldable pub add_node : Scheduler → ℕ → ℤ → Scheduler
unfolding new_task DagScheduler.add_task
add_node s t memory =
    DagScheduler.add_task (record s { heap = update s.heap t (new_task memory) }) t

-- `DAG::run` on the executor's pool
unfoldable pub run_dag : Scheduler → ThreadPool ℕ → Dag
run_dag s pool = launch s.heap s.tasks pool
