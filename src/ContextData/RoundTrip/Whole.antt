-- ===== src/ContextData/RoundTrip/Whole.antt =====
-- Round trip of `Context` (access_control/gen-cpp/data_define_template_types.cpp).
use dag_executor.Common.{ℕ, suc, ◌≡◌, refl, true, false, Bool, if◌then◌else◌, List, [], ◌∷◌}
use dag_executor.Wire.Protocol.{Protocol, t_struct}
use dag_executor.Wire.Reads.{
  Reads, Laws, Reads-return, Reads-map, Reads-stop, Reads-round, Reads-struct,
}
use dag_executor.ContextData.RoundTrip.Parts.{rounds}
use dag_executor.Common.Int.{pos}
use dag_executor.Wire.Struct.{read_fields, put_field, put_fields}
use dag_executor.ContextData.Config.{write_engineering}
use dag_executor.ContextData.Video.{write_video, write_ecom, write_live}
use dag_executor.ContextData.User.{write_common}
use dag_executor.ContextData.Context.{
  Context, ContextRead, context_field, read_context, write_context,
}
use dag_executor.ContextData.RoundTrip.User.{FitsUser, received_common, common-Reads}
use dag_executor.ContextData.RoundTrip.Config.{FitsEngineering, engineering-Reads}
use dag_executor.ContextData.RoundTrip.Video.{
  FitsVideo, FitsEcom, FitsLive, video-Reads, ecom-Reads, live-Reads,
}

-- The bounds of the C++ types hold for every part that `write` writes.
pub record FitsContext {D : Type 0} (c : Context D) : Type 0 where
  pub eng : c.isset_eng ≡ true → FitsEngineering c.eng
  pub video : FitsVideo c.video
  pub ecom : FitsEcom c.ecom
  pub live : FitsLive c.live
  pub comm : FitsUser (c.comm.user_data)

-- What arrives of `c` in an object that held `old`: `eng` only if it was marked as set.
abbrev pub received : {D : Type 0} → Context D → Context D → Context D
received old c = record c {
  eng = if c.isset_eng then c.eng else old.eng;
  isset_eng = if c.isset_eng then true else old.isset_eng;
  comm = received_common c.comm;
}

module _ {ℓ} {B : Type ℓ} {D : Type 0} {p : Protocol B D} (laws : Laws p) where
  -- the fields behind `eng`
  abbrev rest_of : Context D → List (List B)
  rest_of c =
      put_field p "video" t_struct (pos 2) (write_video p c.video)
      ∷ put_field p "ecom" t_struct (pos 3) (write_ecom p c.ecom)
      ∷ put_field p "live" t_struct (pos 4) (write_live p c.live)
      ∷ put_field p "comm" t_struct (pos 5) (write_common p c.comm)
      ∷ []

  -- What the loop holds behind them.
  abbrev filled : Context D → Context D → ContextRead D
  filled base c = record {
    object = record base {
      video = c.video;
      ecom = c.ecom;
      live = c.live;
      comm = received_common c.comm;
    };
    isset_video = true;
    isset_ecom = true;
    isset_live = true;
    isset_comm = true;
  }

  Reads-rest :
      (fuel left : ℕ) (s : ContextRead D) (c : Context D)
      → FitsContext c
      → Reads
          (read_fields p (context_field p (rounds fuel)) (suc (suc (suc (suc (suc left))))) s)
          (put_fields p (rest_of c))
          (filled s.object c)
  unfolding context_field
  Reads-rest fuel left s c h =
      Reads-round laws _ _ _ _ refl (Reads-map _ (video-Reads laws _ _ _ h.video)) (
        Reads-round laws _ _ _ _ refl (Reads-map _ (ecom-Reads laws _ _ _ h.ecom)) (
          Reads-round laws _ _ _ _ refl (Reads-map _ (live-Reads laws _ _ _ h.live)) (
            Reads-round laws _ _ _ _ refl (Reads-map _ (common-Reads laws _ _ _ h.comm))
              (Reads-stop laws _ _ _))))

  abbrev start : Context D → ContextRead D
  start old = record {
    object = old;
    isset_video = false;
    isset_ecom = false;
    isset_live = false;
    isset_comm = false;
  }

  -- The whole loop, where `b` is `isset_eng`.
  Reads-loop :
      (b : Bool) (fuel : ℕ) (old c : Context D)
      → FitsContext c
      → (b ≡ true → FitsEngineering c.eng)
      → Reads
          (read_fields p (context_field p (rounds fuel)) (rounds fuel) (start old))
          (put_fields p (
            if b
            then put_field p "eng" t_struct (pos 1) (write_engineering p c.eng) ∷ rest_of c
            else rest_of c))
          (filled
            (record old {
              eng = if b then c.eng else old.eng;
              isset_eng = if b then true else old.isset_eng;
            })
            c)
  unfolding context_field
  Reads-loop true fuel old c h eng =
      Reads-round laws _ _ _ _ refl (Reads-map _ (engineering-Reads laws _ _ _ (eng refl)))
        (Reads-rest fuel fuel _ c h)
  Reads-loop false fuel old c h eng = Reads-rest fuel (suc fuel) (start old) c h

  pub context-Reads :
      (fuel : ℕ) (old c : Context D)
      → FitsContext c
      → Reads (read_context p (rounds fuel) old) (write_context p c) (received old c)
  unfolding read_context write_context context_field
  context-Reads fuel old c h =
      Reads-struct laws _ _ _ _ _ _ (Reads-loop c.isset_eng fuel old c h h.eng) (Reads-return _)
