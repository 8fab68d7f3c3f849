-- ===== src/ContextData/Members/Arrives.antt =====
-- Copies, swaps and setters reach every member of a context, and what was set arrives
-- (access_control/gen-cpp/data_define_template_types.cpp).
use dag_executor.Common.{ℕ, ◌≡◌, refl, List, ◌++◌, true}
use dag_executor.Wire.Result.{ok}
use dag_executor.Wire.Protocol.{Protocol}
use dag_executor.Wire.Reads.{Laws}
use dag_executor.ContextData.User.{Common}
use dag_executor.ContextData.Config.{Engineering}
use dag_executor.ContextData.Video.{ShortVideo, Ecommerce, Live}
use dag_executor.ContextData.Context.{Context, read_context, write_context}
use dag_executor.ContextData.RoundTrip.{read_context-write_context}
use dag_executor.ContextData.RoundTrip.Parts.{rounds}
use dag_executor.ContextData.RoundTrip.User.{received_common}
use dag_executor.ContextData.RoundTrip.Whole.{FitsContext}
use dag_executor.ContextData.Members.All.{
  assign_context, swap_context, set_eng, set_video, set_ecom, set_live, set_comm,
}

-- `swap` exchanges two contexts entirely, flags and the members of members included, and a context
-- that is assigned or copied to is afterwards the other one.
pub swap_context-assign_context :
    {D : Type 0} (a b : Context D) → (swap_context a b ≡ (b, a)) × (assign_context a b ≡ b)
unfolding swap_context assign_context
swap_context-assign_context a b = (refl, refl)

-- All members of a context, set one after the other.
unfoldable pub set_all :
    {D : Type 0}
    → Context D
    → Engineering
    → ShortVideo D
    → Ecommerce D
    → Live D
    → Common
    → Context D
unfolding set_eng set_video set_ecom set_live set_comm
set_all c eng video ecom live comm =
    set_comm (set_live (set_ecom (set_video (set_eng c eng) video) ecom) live) comm

-- Over a protocol that reads back what it writes: if all members of a context are set by their
-- setters, to values within their types, and the context is swapped into another object and written
-- from there, then whatever the reading object held, it gets exactly these members, `eng` marked as
-- set, the user as it was written, and leaves what follows unread.
pub set_all-arrives {ℓ} :
    {B : Type ℓ} {D : Type 0} (p : Protocol B D)
    → Laws p
    → (c other old : Context D) (eng : Engineering) (video : ShortVideo D) (ecom : Ecommerce D)
      (live : Live D) (comm : Common) (fuel : ℕ) (rest : List B)
    → FitsContext (set_all c eng video ecom live comm)
    → read_context p
        (rounds fuel)
        old
        (write_context p ((swap_context other (set_all c eng video ecom live comm)).0) ++ rest)
      ≡ ok (
        record {
          eng = eng;
          video = video;
          ecom = ecom;
          live = live;
          comm = received_common comm;
          isset_eng = true;
        },
        rest,
      )
unfolding set_all swap_context
set_all-arrives p laws c other old eng video ecom live comm fuel rest h =
    read_context-write_context p laws (set_all c eng video ecom live comm) old fuel rest h
