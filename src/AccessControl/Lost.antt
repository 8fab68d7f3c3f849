-- ===== src/AccessControl/Lost.antt =====
-- What a node stores in the context, and what `Context::write` sends of it
-- (access_control/init_node.h, access_control/gen-cpp/data_define_template_types.cpp).
use dag_executor.Common.{ℕ, ◌≡◌, refl, ap, ◌∙◌, Bool, true, false, ◌&&◌, if◌then◌else◌, List, ◌++◌}
use dag_executor.Wire.Result.{ok}
use dag_executor.Wire.Protocol.{Protocol}
use dag_executor.Wire.Reads.{Laws}
use dag_executor.ContextData.User.{UserData}
use dag_executor.ContextData.Context.{Context, read_context, write_context}
use dag_executor.ContextData.RoundTrip.Parts.{rounds}
use dag_executor.ContextData.RoundTrip.Whole.{FitsContext, received}
use dag_executor.ContextData.RoundTrip.{read_context-write_context}
use dag_executor.AccessControl.{InitNode, access_control, copy_on_success}

module _ {D : Type 0} where
  stored : Bool → InitNode → Context D → Context D
  stored b n c = if b then copy_on_success n c else c

  stored-FitsContext :
      (b : Bool) (n : InitNode) (c : Context D)
      → c.isset_eng ≡ false
      → FitsContext c
      → FitsContext (stored b n c)
  unfolding stored
  stored-FitsContext true n c e h = record {
    eng = λ set. cc;
    video = h.video;
    ecom = h.ecom;
    live = h.live;
    comm = h.comm;
  }
  stored-FitsContext false n c e h = h

  received-stored :
      (b : Bool) (n : InitNode) (c old : Context D)
      → c.isset_eng ≡ false
      → received old (stored b n c) ≡ received old c
  unfolding stored
  received-stored true n c old e = rw e refl
  received-stored false n c old e = refl

module _ {ℓ} {B : Type ℓ} {D : Type 0} (p : Protocol B D) (laws : Laws p) where
  -- What an `InitNode` stores in a context whose `eng` was not marked as set does not get to a
  -- reader of the context: whatever its `run_` does and whatever its flags, the object that
  -- `Context::read` fills from the context that `access_control` leaves is the one that it would
  -- fill from the context as it was, with the reader's own `eng`. The context is as in the round
  -- trip: keys in order, sizes below 2 ^ 32, numbers within their types.
  pub access_control-lost :
      (run_ : InitNode → UserData → InitNode) (n : InitNode) (ctx old : Context D) (fuel : ℕ)
      (rest : List B)
      → ctx.isset_eng ≡ false
      → FitsContext ctx
      → read_context p (rounds fuel) old (write_context p ((access_control run_ n ctx).1) ++ rest)
        ≡ ok (received old ctx, rest)
  unfolding access_control stored
  access_control-lost run_ n ctx old fuel rest e h =
      read_context-write_context p laws (stored set ran ctx) old fuel rest
        (stored-FitsContext set ran ctx e h)
      ∙ ap (λ c. ok (c, rest)) (received-stored set ran ctx old e)
    where
      ran : InitNode
      ran = (access_control run_ n ctx).0

      set : Bool
      set = ran.circuit_flag && ran.status
