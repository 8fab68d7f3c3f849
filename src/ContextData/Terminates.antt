-- ===== src/ContextData/Terminates.antt =====
-- `read` of the context's classes ends on any bytes (access_control/gen-cpp/
-- data_define_template_types.cpp).
use dag_executor.Common.{ℕ, ◌<◌, ◌≢◌, List, length, [], arith}
use dag_executor.Common.Int.{pos}
use dag_executor.Wire.Result.{stuck}
use dag_executor.Wire.Protocol.{t_i32, t_string, t_struct, t_map, t_list, Protocol}
use dag_executor.Wire.Safe.{Safe, Progress, Safe-return, Safe-≢}
use dag_executor.Wire.SafeStruct.{
  Safe-store, Safe-unknown, Safe-struct, Safe-required, Safe-list, Safe-map,
}
use dag_executor.ContextData.Orders.{text_order, int_order}
use dag_executor.ContextData.User.{
  UserData, user_field, read_user, Common, common_field, read_common,
}
use dag_executor.ContextData.Config.{
  ThreadConfig, config_field, read_config, CircuitBreaker, breaker_field, read_breaker, Engineering,
  engineering_field, read_engineering,
}
use dag_executor.ContextData.Item.{ItemData, blank_item, item_field, read_item}
use dag_executor.ContextData.Video.{
  ShortVideo, video_field, read_video, Ecommerce, ecom_field, read_ecom, Live, live_field,
  read_live,
}
use dag_executor.ContextData.Context.{Context, context_field, read_context}

module _ {ℓ} {B : Type ℓ} {D : Type 0} {p : Protocol B D} (progress : Progress p) where
  pub Safe-user : (fuel n : ℕ) (old : UserData) → n < fuel → Safe n (read_user p fuel old)
  unfolding read_user user_field
  Safe-user fuel n old h =
      Safe-struct progress (user_field p) _ fuel n _ h
        (λ s t id. Safe-store progress id (pos 1) t_string t _ n s (progress.string n) (
          Safe-store progress id (pos 2) t_i32 t _ n s (progress.i32 n) (
            Safe-store progress id (pos 3) t_string t _ n s (progress.string n) (
              Safe-store progress id (pos 4) t_string t _ n s (progress.string n) (
                Safe-store progress id (pos 5) t_i32 t _ n s (progress.i32 n)
                  (Safe-unknown progress t n s))))))
        (λ s. Safe-required progress _ n _)

  pub Safe-common : (fuel n : ℕ) (old : Common) → n < fuel → Safe n (read_common p fuel old)
  unfolding read_common common_field
  Safe-common fuel n old h =
      Safe-struct progress (common_field p fuel) _ fuel n _ h
        (λ s t id.
          Safe-store progress id (pos 1) t_struct t _ n s (Safe-user fuel n _ h)
            (Safe-unknown progress t n s))
        (λ s. Safe-return n _)

  pub Safe-config : (fuel n : ℕ) (old : ThreadConfig) → n < fuel → Safe n (read_config p fuel old)
  unfolding read_config config_field
  Safe-config fuel n old h =
      Safe-struct progress (config_field p) _ fuel n _ h
        (λ s t id. Safe-store progress id (pos 1) t_i32 t _ n s (progress.i32 n) (
          Safe-store progress id (pos 2) t_i32 t _ n s (progress.i32 n)
            (Safe-unknown progress t n s)))
        (λ s. Safe-required progress _ n _)

  pub Safe-breaker :
      (fuel n : ℕ) (old : CircuitBreaker) → n < fuel → Safe n (read_breaker p fuel old)
  unfolding read_breaker breaker_field
  Safe-breaker fuel n old h =
      Safe-struct progress (breaker_field p) _ fuel n _ h
        (λ s t id.
          Safe-store progress id (pos 1) t_map t _ n s
            (Safe-map progress text_order (pos 0) n (progress.string n) (λ v. progress.i32 n))
            (Safe-store progress id (pos 2) t_map t _ n s
              (Safe-map progress text_order [] n (progress.string n) (λ v. progress.string n))
              (Safe-unknown progress t n s)))
        (λ s. Safe-required progress _ n _)

  pub Safe-engineering :
      (fuel n : ℕ) (old : Engineering) → n < fuel → Safe n (read_engineering p fuel old)
  unfolding read_engineering engineering_field
  Safe-engineering fuel n old h =
      Safe-struct progress (engineering_field p fuel) _ fuel n _ h
        (λ s t id. Safe-store progress id (pos 1) t_struct t _ n s (Safe-config fuel n _ h) (
          Safe-store progress id (pos 2) t_struct t _ n s (Safe-breaker fuel n _ h)
            (Safe-unknown progress t n s)))
        (λ s. Safe-required progress _ n _)

  pub Safe-item : (fuel n : ℕ) (old : ItemData D) → n < fuel → Safe n (read_item p fuel old)
  unfolding read_item item_field
  Safe-item fuel n old h =
      Safe-struct progress (item_field p) _ fuel n _ h
        (λ s t id. Safe-store progress id (pos 1) t_string t _ n s (progress.string n) (
          Safe-store progress id (pos 2) t_string t _ n s (progress.string n) (
            Safe-store progress id (pos 3) t_map t _ n s
              (Safe-map progress text_order [] n (progress.string n)
                (λ v. Safe-list progress n (progress.double n)))
              (Safe-store progress id (pos 4) t_list t _ n s
                (Safe-list progress n (progress.string n)) (Safe-unknown progress t n s)))))
        (λ s. Safe-required progress _ n _)

  pub Safe-video : (fuel n : ℕ) (old : ShortVideo D) → n < fuel → Safe n (read_video p fuel old)
  unfolding read_video video_field
  Safe-video fuel n old h =
      Safe-struct progress (video_field p fuel) _ fuel n _ h
        (λ s t id.
          Safe-store progress id (pos 1) t_list t _ n s (Safe-list progress n (progress.i64 n)) (
            Safe-store progress id (pos 2) t_list t _ n s (Safe-list progress n (progress.string n))
              (Safe-store progress id (pos 3) t_map t _ n s
                (Safe-map progress text_order [] n (progress.string n)
                  (λ v. Safe-list progress n (progress.double n)))
                (Safe-store progress id (pos 4) t_map t _ n s
                  (Safe-map progress int_order blank_item n (progress.i64 n)
                    (λ v. Safe-item fuel n v h))
                  (Safe-unknown progress t n s)))))
        (λ s. Safe-required progress _ n _)

  pub Safe-ecom : (fuel n : ℕ) (old : Ecommerce D) → n < fuel → Safe n (read_ecom p fuel old)
  unfolding read_ecom ecom_field
  Safe-ecom fuel n old h =
      Safe-struct progress (ecom_field p fuel) _ fuel n _ h
        (λ s t id.
          Safe-store progress id (pos 1) t_list t _ n s (Safe-list progress n (progress.i64 n)) (
            Safe-store progress id (pos 2) t_list t _ n s (Safe-list progress n (progress.string n))
              (Safe-store progress id (pos 3) t_map t _ n s
                (Safe-map progress text_order [] n (progress.string n)
                  (λ v. Safe-list progress n (progress.double n)))
                (Safe-store progress id (pos 4) t_map t _ n s
                  (Safe-map progress int_order blank_item n (progress.i64 n)
                    (λ v. Safe-item fuel n v h))
                  (Safe-unknown progress t n s)))))
        (λ s. Safe-required progress _ n _)

  pub Safe-live : (fuel n : ℕ) (old : Live D) → n < fuel → Safe n (read_live p fuel old)
  unfolding read_live live_field
  Safe-live fuel n old h =
      Safe-struct progress (live_field p fuel) _ fuel n _ h
        (λ s t id.
          Safe-store progress id (pos 1) t_list t _ n s (Safe-list progress n (progress.i64 n)) (
            Safe-store progress id (pos 2) t_list t _ n s (Safe-list progress n (progress.string n))
              (Safe-store progress id (pos 3) t_map t _ n s
                (Safe-map progress text_order [] n (progress.string n)
                  (λ v. Safe-list progress n (progress.double n)))
                (Safe-store progress id (pos 4) t_map t _ n s
                  (Safe-map progress int_order blank_item n (progress.i64 n)
                    (λ v. Safe-item fuel n v h))
                  (Safe-unknown progress t n s)))))
        (λ s. Safe-required progress _ n _)

  pub Safe-context : (fuel n : ℕ) (old : Context D) → n < fuel → Safe n (read_context p fuel old)
  unfolding read_context context_field
  Safe-context fuel n old h =
      Safe-struct progress (context_field p fuel) _ fuel n _ h
        (λ s t id. Safe-store progress id (pos 1) t_struct t _ n s (Safe-engineering fuel n _ h) (
          Safe-store progress id (pos 2) t_struct t _ n s (Safe-video fuel n _ h) (
            Safe-store progress id (pos 3) t_struct t _ n s (Safe-ecom fuel n _ h) (
              Safe-store progress id (pos 4) t_struct t _ n s (Safe-live fuel n _ h) (
                Safe-store progress id (pos 5) t_struct t _ n s (Safe-common fuel n _ h)
                  (Safe-unknown progress t n s))))))
        (λ s. Safe-required progress _ n _)

module _ {ℓ} {B : Type ℓ} {D : Type 0} (p : Protocol B D) (progress : Progress p) where
  -- On any bytes, well formed or not, `Context::read` ends, with a context or with an exception: a
  -- fuel above the number of bytes is enough for all its loops, those of the nested structures
  -- included, if the protocol's operations end and do not lengthen the bytes, and the head of a
  -- field takes at least one.
  pub read_context-terminates :
      (fuel : ℕ) (old : Context D) (bytes : List B)
      → length bytes < fuel
      → read_context p fuel old bytes ≢ stuck
  read_context-terminates fuel old bytes h =
      Safe-≢ (length bytes) bytes (Safe-context progress fuel (length bytes) old h) (omega arith)
