-- ===== src/ContextData/Returns/Config.antt =====
-- What `read` returns of `ThreadConfig`, `CircuitBreaker` and `Engineering` (access_control/gen-cpp/
-- data_define_template_types.cpp).
use dag_executor.Common.{ℕ, ◌≡◌, true, arith}
use dag_executor.Common.Int.{pos}
use dag_executor.Wire.Protocol.{t_i32, t_struct, t_map, Protocol, IsI32}
use dag_executor.Wire.Gives.{
  Gives, Gives-unknown, Gives-store, Gives-struct, Gives-required, InRange,
}
use dag_executor.ContextData.RoundTrip.Parts.{FitsNumbers, FitsTexts}
use dag_executor.ContextData.RoundTrip.Config.{FitsConfig, FitsBreaker, FitsEngineering}
use dag_executor.ContextData.Returns.Parts.{Gives-numbers, Gives-text_map}
use dag_executor.ContextData.Config.{
  ThreadConfig, ThreadConfigRead, config_field, read_config, CircuitBreaker, CircuitBreakerRead,
  breaker_field, read_breaker, Engineering, EngineeringRead, engineering_field, read_engineering,
}

module _ {ℓ} {B : Type ℓ} {D : Type 0} {p : Protocol B D} (range : InRange p) where
  -- Each field that was read fits its type.
  abbrev ConfigInv : ThreadConfigRead → Type 0
  ConfigInv s =
      (s.isset_num ≡ true → IsI32 (s.object.num))
      × (s.isset_task_num ≡ true → IsI32 (s.object.task_num))

  pub config-Gives : (fuel : ℕ) (old : ThreadConfig) → Gives (read_config p fuel old) FitsConfig
  unfolding read_config config_field
  config-Gives fuel old =
      Gives-struct p ConfigInv (config_field p) _ fuel _ (λ e. cc, λ e. cc)
        (λ s t id h.
          Gives-store p ConfigInv id (pos 1) t_i32 t _ s h (range.i32) (λ v q. (λ e. q, h.1))
            (Gives-store p ConfigInv id (pos 2) t_i32 t _ s h (range.i32) (λ v q. (h.0, λ e. q))
              (Gives-unknown p ConfigInv t s h)))
        (λ s h. Gives-required _ _ (λ e. ground (arith, e)))

  -- Each field that was read fits its type.
  abbrev BreakerInv : CircuitBreakerRead → Type 0
  BreakerInv s =
      (s.isset_max_latency ≡ true → FitsNumbers (s.object.max_latency))
      × (s.isset_replace_node ≡ true → FitsTexts (s.object.replace_node))

  pub breaker-Gives :
      (fuel : ℕ) (old : CircuitBreaker) → Gives (read_breaker p fuel old) FitsBreaker
  unfolding read_breaker breaker_field
  breaker-Gives fuel old =
      Gives-struct p BreakerInv (breaker_field p) _ fuel _ (λ e. cc, λ e. cc)
        (λ s t id h.
          Gives-store p BreakerInv id (pos 1) t_map t _ s h (Gives-numbers range)
            (λ v q. (λ e. q, h.1))
            (Gives-store p BreakerInv id (pos 2) t_map t _ s h (Gives-text_map range)
              (λ v q. (h.0, λ e. q)) (Gives-unknown p BreakerInv t s h)))
        (λ s h. Gives-required _ _ (λ e. ground (arith, e)))

  -- Each field that was read fits its type.
  abbrev EngineeringInv : EngineeringRead → Type 0
  EngineeringInv s =
      (s.isset_thread_conf ≡ true → FitsConfig (s.object.thread_conf))
      × (s.isset_breaker_conf ≡ true → FitsBreaker (s.object.breaker_conf))

  pub engineering-Gives :
      (fuel : ℕ) (old : Engineering) → Gives (read_engineering p fuel old) FitsEngineering
  unfolding read_engineering engineering_field
  engineering-Gives fuel old =
      Gives-struct p EngineeringInv (engineering_field p fuel) _ fuel _ (λ e. cc, λ e. cc)
        (λ s t id h.
          Gives-store p EngineeringInv id (pos 1) t_struct t _ s h (config-Gives fuel _)
            (λ v q. (λ e. q, h.1))
            (Gives-store p EngineeringInv id (pos 2) t_struct t _ s h (breaker-Gives fuel _)
              (λ v q. (h.0, λ e. q)) (Gives-unknown p EngineeringInv t s h)))
        (λ s h. Gives-required _ _ (λ e. ground (arith, e)))
