-- ===== src/AccessControl/Breaker.antt =====
-- The circuit breaker of `InitNode::access_control` (access_control/init_node.h).
use dag_executor.Common.{◌≡◌, arith}
use dag_executor.ContextData.User.{UserData}
use dag_executor.ContextData.Context.{Context}
use dag_executor.AccessControl.{InitNode, access_control, new_init_node}

module _ {D : Type 0} (run_ : InitNode → UserData → InitNode) where
  -- A node as its constructor makes it never writes to the context, as long as its `run_` does not
  -- set the flag that no other code sets: `eng` is neither read nor written.
  pub new_node_inert :
      (ctx : Context D)
      → ((n : InitNode) (u : UserData) → (run_ n u).circuit_flag ≡ n.circuit_flag)
      → (access_control run_ new_init_node ctx).1 ≡ ctx
        × ((access_control run_ new_init_node ctx).0 ≡ run_ new_init_node (ctx.comm.user_data))
  unfolding access_control
  new_node_inert ctx keeps = ground (arith, keeps new_init_node (ctx.comm.user_data))
