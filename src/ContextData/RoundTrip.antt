-- ===== src/ContextData/RoundTrip.antt =====
-- `write` and then `read` of the context's structures (access_control/gen-cpp/
-- data_define_template_types.cpp).
pub mod Parts
pub mod User
pub mod Config
pub mod Video
pub mod Whole
use dag_executor.Common.{ℕ, suc, ◌≡◌, List, ◌++◌}
use dag_executor.Wire.Result.{ok}
use dag_executor.Wire.Protocol.{Protocol}
use dag_executor.Wire.Reads.{Laws}
use dag_executor.ContextData.User.{UserData, read_user, write_user}
use dag_executor.ContextData.Config.{ThreadConfig, read_config, write_config}
use dag_executor.ContextData.Context.{Context, read_context, write_context}
use dag_executor.ContextData.RoundTrip.Parts.{rounds}
use dag_executor.ContextData.RoundTrip.User.{FitsUser, received_user, user-Reads}
use dag_executor.ContextData.RoundTrip.Config.{FitsConfig, config-Reads}
use dag_executor.ContextData.RoundTrip.Whole.{FitsContext, received, context-Reads}

module _ {ℓ} {B : Type ℓ} {D : Type 0} (p : Protocol B D) (laws : Laws p) where
  -- Over a protocol that reads back what it writes, `Context::read` gets from what `write` has
  -- written the context that was written, with all its lists, maps and nested structures, and leaves
  -- what follows unread: its maps in the order of their keys, all sizes below 2 ^ 32 and all numbers
  -- within their types. Where `eng` was not marked as set, the reading object keeps its own; the
  -- fields with a default arrive marked as set. No loop over the fields of
  -- a class makes more than six rounds.
  pub read_context-write_context :
      (c old : Context D) (fuel : ℕ) (rest : List B)
      → FitsContext c
      → read_context p (rounds fuel) old (write_context p c ++ rest) ≡ ok (received old c, rest)
  read_context-write_context c old fuel rest h = (context-Reads laws fuel old c h).run rest

  -- Over a protocol that reads back what it writes, `ThreadConfig::read` gets from what `write` has
  -- written the object that was written, whatever the reading object held before, with a round of
  -- its loop for each of the two fields and one for the stop; it leaves what follows unread.
  pub read_config-write_config :
      (c old : ThreadConfig) (fuel : ℕ) (rest : List B)
      → FitsConfig c
      → read_config p (suc (suc (suc fuel))) old (write_config p c ++ rest) ≡ ok (c, rest)
  read_config-write_config c old fuel rest h = (config-Reads laws fuel old c h).run rest

  -- Over such a protocol `UserData::read` gets from what `write` has written the object that was
  -- written, but with its `device_id` marked as set, since `write` writes that field even if it was
  -- not; it needs five rounds of its loop and one for the stop.
  pub read_user-write_user :
      (u old : UserData) (fuel : ℕ) (rest : List B)
      → FitsUser u
      → read_user p (rounds fuel) old (write_user p u ++ rest) ≡ ok (received_user u, rest)
  read_user-write_user u old fuel rest h = (user-Reads laws fuel old u h).run rest
