-- ===== src/ContextData/Context.antt =====
-- `Context` (access_control/gen-cpp/data_define_template_types.h and .cpp).
use dag_executor.Common.{ℕ, List, [], ◌∷◌, Bool, true, false, ◌&&◌, if◌then◌else◌}
use dag_executor.Common.Int.{ℤ, pos, eqb_ℤ}
use dag_executor.Wire.Result.{M, return, ◌>>=◌}
use dag_executor.Wire.Protocol.{TType, t_struct, Protocol}
use dag_executor.Wire.Struct.{typed, unknown_field, read_struct, put_field, write_struct, required}
use dag_executor.ContextData.Config.{Engineering, read_engineering, write_engineering}
use dag_executor.ContextData.Video.{
  ShortVideo, read_video, write_video, Ecommerce, read_ecom, write_ecom, Live, read_live,
  write_live,
}
use dag_executor.ContextData.User.{Common, read_common, write_common}

-- `class Context`, its flags in `__isset` included
pub record Context (D : Type 0) : Type 0 where
  pub eng : Engineering
  pub video : ShortVideo D
  pub ecom : Ecommerce D
  pub live : Live D
  pub comm : Common
  pub isset_eng : Bool

-- The object and the flags of `Context::read`.
pub record ContextRead (D : Type 0) : Type 0 where
  pub object : Context D
  pub isset_video : Bool
  pub isset_ecom : Bool
  pub isset_live : Bool
  pub isset_comm : Bool

module _ {ℓ} {B : Type ℓ} {D : Type 0} (p : Protocol B D) where
  -- the switch of `Context::read`
  unfoldable pub context_field : ℕ → (ContextRead D) → TType → ℤ → M B (ContextRead D)
  context_field fuel s t id =
      if eqb_ℤ id (pos 1)
      then typed p t_struct
          (read_engineering p fuel ((s.object).eng) >>= λ v.
            return (record s { object = record (s.object) { eng = v; isset_eng = true } }))
          s t
      else if eqb_ℤ id (pos 2)
      then typed p t_struct
          (read_video p fuel ((s.object).video) >>= λ v.
            return (record s { object = record (s.object) { video = v }; isset_video = true }))
          s t
      else if eqb_ℤ id (pos 3)
      then typed p t_struct
          (read_ecom p fuel ((s.object).ecom) >>= λ v.
            return (record s { object = record (s.object) { ecom = v }; isset_ecom = true }))
          s t
      else if eqb_ℤ id (pos 4)
      then typed p t_struct
          (read_live p fuel ((s.object).live) >>= λ v.
            return (record s { object = record (s.object) { live = v }; isset_live = true }))
          s t
      else if eqb_ℤ id (pos 5)
      then typed p t_struct
          (read_common p fuel ((s.object).comm) >>= λ v.
            return (record s { object = record (s.object) { comm = v }; isset_comm = true }))
          s t
      else unknown_field p s t

  -- `Context::read` into an object that holds `old`
  unfoldable pub read_context : ℕ → Context D → M B (Context D)
  unfolding context_field
  read_context fuel old =
      read_struct p (context_field fuel)
        (λ s. required (s.isset_video && s.isset_ecom && s.isset_live && s.isset_comm) (s.object))
        fuel
        (record {
          object = old;
          isset_video = false;
          isset_ecom = false;
          isset_live = false;
          isset_comm = false;
        })

  -- `Context::write`
  unfoldable pub write_context : Context D → List B
  write_context x =
      let rest : List (List B) =
        put_field p "video" t_struct (pos 2) (write_video p x.video)
        ∷ put_field p "ecom" t_struct (pos 3) (write_ecom p x.ecom)
        ∷ put_field p "live" t_struct (pos 4) (write_live p x.live)
        ∷ put_field p "comm" t_struct (pos 5) (write_common p x.comm)
        ∷ [] in
      write_struct p "Context" (
        if x.isset_eng
        then put_field p "eng" t_struct (pos 1) (write_engineering p x.eng) ∷ rest
        else rest)
