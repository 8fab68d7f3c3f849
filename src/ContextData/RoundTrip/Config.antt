-- ===== src/ContextData/RoundTrip/Config.antt =====
-- Round trips of `ThreadConfig`, `CircuitBreaker` and `Engineering` (access_control/gen-cpp/
-- data_define_template_types.cpp).
use dag_executor.Common.{ℕ, suc, refl}
use dag_executor.Wire.Protocol.{Protocol, IsI32}
use dag_executor.Wire.Reads.{
  Reads, Laws, Reads-return, Reads-map, Reads-stop, Reads-round, Reads-struct,
}
use dag_executor.ContextData.RoundTrip.Parts.{
  rounds, FitsNumbers, FitsTexts, Reads-numbers, Reads-text_map,
}
use dag_executor.ContextData.Config.{
  ThreadConfig, config_field, read_config, write_config, CircuitBreaker, breaker_field,
  read_breaker, write_breaker, Engineering, engineering_field, read_engineering, write_engineering,
}

abbrev pub FitsConfig : ThreadConfig → Type 0
FitsConfig c = IsI32 c.num × IsI32 c.task_num

abbrev pub FitsBreaker : CircuitBreaker → Type 0
FitsBreaker b = FitsNumbers b.max_latency × FitsTexts b.replace_node

abbrev pub FitsEngineering : Engineering → Type 0
FitsEngineering e = FitsConfig e.thread_conf × FitsBreaker e.breaker_conf

module _ {ℓ} {B : Type ℓ} {D : Type 0} {p : Protocol B D} (laws : Laws p) where
  pub config-Reads :
      (fuel : ℕ) (old x : ThreadConfig)
      → FitsConfig x
      → Reads (read_config p (suc (suc (suc fuel))) old) (write_config p x) x
  unfolding read_config write_config config_field
  config-Reads fuel old x h =
      Reads-struct laws (config_field p) _ _ _ _ _
        (Reads-round laws _ _ _ _ refl (Reads-map _ (laws.i32 _ (h.0)))
          (Reads-round laws _ _ _ _ refl (Reads-map _ (laws.i32 _ (h.1))) (Reads-stop laws _ _ _)))
        (Reads-return _)

  pub breaker-Reads :
      (fuel : ℕ) (old x : CircuitBreaker)
      → FitsBreaker x
      → Reads (read_breaker p (rounds fuel) old) (write_breaker p x) x
  unfolding read_breaker write_breaker breaker_field
  breaker-Reads fuel old x h =
      Reads-struct laws (breaker_field p) _ _ _ _ _
        (Reads-round laws _ _ _ _ refl (Reads-map _ (Reads-numbers laws _ (h.0))) (
          Reads-round laws _ _ _ _ refl (Reads-map _ (Reads-text_map laws _ (h.1)))
            (Reads-stop laws _ _ _)))
        (Reads-return _)

  pub engineering-Reads :
      (fuel : ℕ) (old x : Engineering)
      → FitsEngineering x
      → Reads (read_engineering p (rounds fuel) old) (write_engineering p x) x
  unfolding read_engineering write_engineering engineering_field
  engineering-Reads fuel old x h =
      Reads-struct laws (engineering_field p (rounds fuel)) _ _ _ _ _
        (Reads-round laws _ _ _ _ refl (Reads-map _ (config-Reads _ _ _ (h.0))) (
          Reads-round laws _ _ _ _ refl (Reads-map _ (breaker-Reads _ _ _ (h.1)))
            (Reads-stop laws _ _ _)))
        (Reads-return _)
