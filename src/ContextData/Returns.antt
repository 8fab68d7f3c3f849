-- ===== src/ContextData/Returns.antt =====
-- What `Context::read` returns, whatever the bytes (access_control/gen-cpp/
-- data_define_template_types.cpp).
pub mod Parts
pub mod User
pub mod Config
pub mod Video
use dag_executor.Common.{ℕ, ◌≡◌, true, false, Bool, ◌&&◌, arith, []}
use dag_executor.Common.Int.{ℤ, pos}
use dag_executor.Common.OrderedMap.{IsSorted-Follows}
use dag_executor.Wire.Protocol.{
  t_i32, t_i64, t_string, t_struct, t_map, t_list, Protocol, IsI32, IsI64,
}
use dag_executor.Wire.Containers.{read_map}
use dag_executor.Wire.Gives.{
  Gives, Gives-return, Gives-any, Gives-imp, Gives-unknown, Gives-store, Gives-struct,
  Gives-required, InRange,
}
use dag_executor.Wire.GivesAll.{Gives-map}
use dag_executor.ContextData.Orders.{int_order}
use dag_executor.ContextData.RoundTrip.Parts.{IsShort, FitsScores, FitsNumbers, FitsTexts, FitsInts}
use dag_executor.ContextData.RoundTrip.User.{FitsUser}
use dag_executor.ContextData.RoundTrip.Config.{FitsConfig, FitsBreaker, FitsEngineering}
use dag_executor.ContextData.RoundTrip.Video.{FitsItem, FitsItems, FitsVideo, FitsEcom, FitsLive}
use dag_executor.ContextData.RoundTrip.Whole.{FitsContext}
use dag_executor.ContextData.Returns.Parts.{
  Gives-texts, Gives-ints, Gives-scores, Gives-numbers, Gives-text_map,
}
use dag_executor.ContextData.User.{
  UserData, UserDataRead, user_field, read_user, Common, common_field, read_common,
}
use dag_executor.ContextData.Config.{
  ThreadConfig, ThreadConfigRead, config_field, read_config, CircuitBreaker, CircuitBreakerRead,
  breaker_field, read_breaker, Engineering, EngineeringRead, engineering_field, read_engineering,
}
use dag_executor.ContextData.Item.{ItemData, ItemDataRead, blank_item, item_field, read_item}
use dag_executor.ContextData.Video.{
  ShortVideo, ShortVideoRead, video_field, read_video, Ecommerce, EcommerceRead, ecom_field,
  read_ecom, Live, LiveRead, live_field, read_live,
}
use dag_executor.ContextData.Context.{Context, ContextRead, context_field, read_context}
use dag_executor.Common.{List, ◌++◌}
use dag_executor.Wire.Result.{ok}
use dag_executor.Wire.Reads.{Laws}
use dag_executor.Wire.Gives.{Gives-ok}
use dag_executor.ContextData.RoundTrip.Parts.{rounds}
use dag_executor.ContextData.RoundTrip.Whole.{received}
use dag_executor.ContextData.RoundTrip.{read_context-write_context}
use dag_executor.ContextData.Context.{write_context}
use dag_executor.ContextData.Config.{write_engineering}
use dag_executor.ContextData.Returns.User.{common-Gives}
use dag_executor.ContextData.Returns.Config.{engineering-Gives}
use dag_executor.ContextData.Returns.Video.{video-Gives, ecom-Gives, live-Gives}

-- What the reading object holds in the fields that need not be written fits their types.
pub record FitsOld {D : Type 0} (c : Context D) : Type 0 where
  pub eng : c.isset_eng ≡ true → FitsEngineering c.eng
  pub comm : FitsUser (c.comm.user_data)

module _ {ℓ} {B : Type ℓ} {D : Type 0} {p : Protocol B D} (range : InRange p) where
  abbrev ContextInv : ContextRead D → Type 0
  ContextInv s =
      (s.object.isset_eng ≡ true → FitsEngineering (s.object.eng))
      × (s.isset_video ≡ true → FitsVideo (s.object.video))
      × (s.isset_ecom ≡ true → FitsEcom (s.object.ecom))
      × (s.isset_live ≡ true → FitsLive (s.object.live))
      × FitsUser (s.object.comm.user_data)

  all_fit :
      (s : ContextRead D)
      → ContextInv s
      → (s.isset_video && s.isset_ecom && s.isset_live && s.isset_comm) ≡ true
      → FitsContext s.object
  all_fit s h e = record {
    eng = h.0;
    video = ground (arith, e, h.1);
    ecom = ground (arith, e, h.2);
    live = ground (arith, e, h.3);
    comm = h.4;
  }

  context-Gives :
      (fuel : ℕ) (old : Context D) → FitsOld old → Gives (read_context p fuel old) FitsContext
  unfolding read_context context_field
  context-Gives fuel old k =
      Gives-struct p ContextInv (context_field p fuel) _ fuel _
        (k.eng, λ e. cc, λ e. cc, λ e. cc, k.comm)
        (λ s t id h.
          Gives-store p ContextInv id (pos 1) t_struct t _ s h (engineering-Gives range fuel _)
            (λ v q. (λ e. q, h.1, h.2, h.3, h.4))
            (Gives-store p ContextInv id (pos 2) t_struct t _ s h (video-Gives range fuel _)
              (λ v q. (h.0, λ e. q, h.2, h.3, h.4))
              (Gives-store p ContextInv id (pos 3) t_struct t _ s h (ecom-Gives range fuel _)
                (λ v q. (h.0, h.1, λ e. q, h.3, h.4))
                (Gives-store p ContextInv id (pos 4) t_struct t _ s h (live-Gives range fuel _)
                  (λ v q. (h.0, h.1, h.2, λ e. q, h.4))
                  (Gives-store p ContextInv id (pos 5) t_struct t _ s h
                    (common-Gives range fuel _ (h.4)) (λ v q. (h.0, h.1, h.2, h.3, q))
                    (Gives-unknown p ContextInv t s h))))))
        (λ s h. Gives-required _ _ (λ e. all_fit s h e))

module _ {ℓ} {B : Type ℓ} {D : Type 0} (p : Protocol B D) (range : InRange p) (laws : Laws p) where
  -- Whatever the bytes, a context that `Context::read` returns is well formed: its numbers fit their
  -- types, its lists and maps have sizes below 2 ^ 32, and every map has its entries in the order of
  -- their keys, each key once, also if the bytes had a key twice or out of order. So it can be sent
  -- on: what `write` writes of it, another object reads back as it was. The protocol's numbers and
  -- sizes are in the ranges of their C++ types and it reads back what it writes, and what the reading
  -- object held in the fields that need not be written fits their types.
  pub read_context-FitsContext :
      (old other c : Context D) (fuel more : ℕ) (bytes rest others : List B)
      → FitsOld old
      → read_context p fuel old bytes ≡ ok (c, rest)
      → FitsContext c
        × (read_context p (rounds more) other (write_context p c ++ others)
            ≡ ok (received other c, others))
  read_context-FitsContext old other c fuel more bytes rest others k e =
      (fits, read_context-write_context p laws c other more others fits)
    where
      fits : FitsContext c
      fits = Gives-ok c bytes rest (context-Gives range fuel old k) e
