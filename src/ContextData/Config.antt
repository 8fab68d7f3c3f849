-- ===== src/ContextData/Config.antt =====
-- `ThreadConfig`, `CircuitBreaker` and `Engineering` of the context (access_control/gen-cpp/
-- data_define_template_types.h and .cpp).
use dag_executor.Common.{ℕ, List, [], ◌∷◌, Bool, true, false, ◌&&◌, if◌then◌else◌}
use dag_executor.Common.Int.{ℤ, pos, eqb_ℤ}
use dag_executor.Common.OrderedMap.{Map}
use dag_executor.Util.{Text}
use dag_executor.Wire.Result.{M, return, ◌>>=◌}
use dag_executor.Wire.Protocol.{TType, t_i32, t_string, t_struct, t_map, Protocol}
use dag_executor.Wire.Struct.{typed, unknown_field, read_struct, put_field, write_struct, required}
use dag_executor.Wire.Containers.{read_map, write_map}
use dag_executor.ContextData.Orders.{text_order}

-- `class ThreadConfig`
pub record ThreadConfig : Type 0 where
  pub num : ℤ
  pub task_num : ℤ

-- `ThreadConfig::ThreadConfig`
abbrev pub blank_config : ThreadConfig
blank_config = record { num = pos 0; task_num = pos 0 }

-- The object and the flags of `ThreadConfig::read`.
pub record ThreadConfigRead : Type 0 where
  pub object : ThreadConfig
  pub isset_num : Bool
  pub isset_task_num : Bool

module _ {ℓ} {B : Type ℓ} {D : Type 0} (p : Protocol B D) where
  -- the switch of `ThreadConfig::read`
  unfoldable pub config_field : ThreadConfigRead → TType → ℤ → M B ThreadConfigRead
  config_field s t id =
      if eqb_ℤ id (pos 1)
      then typed p t_i32
          (p.read_i32 >>= λ v.
            return (record s { object = record (s.object) { num = v }; isset_num = true }))
          s t
      else if eqb_ℤ id (pos 2)
      then typed p t_i32
          (p.read_i32 >>= λ v.
            return
              (record s { object = record (s.object) { task_num = v }; isset_task_num = true }))
          s t
      else unknown_field p s t

  -- `ThreadConfig::read` into an object that holds `old`
  unfoldable pub read_config : ℕ → ThreadConfig → M B ThreadConfig
  unfolding config_field
  read_config fuel old =
      read_struct p config_field (λ s. required (s.isset_num && s.isset_task_num) (s.object)) fuel
        (record { object = old; isset_num = false; isset_task_num = false })

  -- `ThreadConfig::write`
  unfoldable pub write_config : ThreadConfig → List B
  write_config x = write_struct p "ThreadConfig" (
      put_field p "num" t_i32 (pos 1) (p.write_i32 x.num)
      ∷ put_field p "task_num" t_i32 (pos 2) (p.write_i32 x.task_num)
      ∷ [])

-- `class CircuitBreaker`
pub record CircuitBreaker : Type 0 where
  pub max_latency : Map Text ℤ
  pub replace_node : Map Text Text

-- `CircuitBreaker::CircuitBreaker`
abbrev pub blank_breaker : CircuitBreaker
blank_breaker = record { max_latency = []; replace_node = [] }

-- The object and the flags of `CircuitBreaker::read`.
pub record CircuitBreakerRead : Type 0 where
  pub object : CircuitBreaker
  pub isset_max_latency : Bool
  pub isset_replace_node : Bool

module _ {ℓ} {B : Type ℓ} {D : Type 0} (p : Protocol B D) where
  -- the switch of `CircuitBreaker::read`
  unfoldable pub breaker_field : CircuitBreakerRead → TType → ℤ → M B CircuitBreakerRead
  breaker_field s t id =
      if eqb_ℤ id (pos 1)
      then typed p t_map
          ((read_map p text_order p.read_string (λ _. p.read_i32) (pos 0)) >>= λ v.
            return (record s {
              object = record (s.object) { max_latency = v };
              isset_max_latency = true;
            }))
          s t
      else if eqb_ℤ id (pos 2)
      then typed p t_map
          ((read_map p text_order p.read_string (λ _. p.read_string) []) >>= λ v. return (record s {
            object = record (s.object) { replace_node = v };
            isset_replace_node = true;
          }))
          s t
      else unknown_field p s t

  -- `CircuitBreaker::read` into an object that holds `old`
  unfoldable pub read_breaker : ℕ → CircuitBreaker → M B CircuitBreaker
  unfolding breaker_field
  read_breaker fuel old =
      read_struct p breaker_field
        (λ s. required (s.isset_max_latency && s.isset_replace_node) (s.object)) fuel
        (record { object = old; isset_max_latency = false; isset_replace_node = false })

  -- `CircuitBreaker::write`
  unfoldable pub write_breaker : CircuitBreaker → List B
  write_breaker x = write_struct p "CircuitBreaker" (
      put_field p "max_latency" t_map (pos 1)
        (write_map p t_string t_i32 (λ x. p.write_string x) (λ x. p.write_i32 x) x.max_latency)
      ∷ put_field p "replace_node" t_map (pos 2) (
          write_map p t_string t_string (λ x. p.write_string x) (λ x. p.write_string x)
            x.replace_node)
      ∷ [])

-- `class Engineering`
pub record Engineering : Type 0 where
  pub thread_conf : ThreadConfig
  pub breaker_conf : CircuitBreaker

-- `Engineering::Engineering`
abbrev pub blank_engineering : Engineering
blank_engineering = record { thread_conf = blank_config; breaker_conf = blank_breaker }

-- The object and the flags of `Engineering::read`.
pub record EngineeringRead : Type 0 where
  pub object : Engineering
  pub isset_thread_conf : Bool
  pub isset_breaker_conf : Bool

module _ {ℓ} {B : Type ℓ} {D : Type 0} (p : Protocol B D) where
  -- the switch of `Engineering::read`
  unfoldable pub engineering_field : ℕ → EngineeringRead → TType → ℤ → M B EngineeringRead
  engineering_field fuel s t id =
      if eqb_ℤ id (pos 1)
      then typed p t_struct
          (read_config p fuel ((s.object).thread_conf) >>= λ v.
            return (record s {
              object = record (s.object) { thread_conf = v };
              isset_thread_conf = true;
            }))
          s t
      else if eqb_ℤ id (pos 2)
      then typed p t_struct
          (read_breaker p fuel ((s.object).breaker_conf) >>= λ v. return (record s {
            object = record (s.object) { breaker_conf = v };
            isset_breaker_conf = true;
          }))
          s t
      else unknown_field p s t

  -- `Engineering::read` into an object that holds `old`
  unfoldable pub read_engineering : ℕ → Engineering → M B Engineering
  unfolding engineering_field
  read_engineering fuel old =
      read_struct p (engineering_field fuel)
        (λ s. required (s.isset_thread_conf && s.isset_breaker_conf) (s.object)) fuel
        (record { object = old; isset_thread_conf = false; isset_breaker_conf = false })

  -- `Engineering::write`
  unfoldable pub write_engineering : Engineering → List B
  write_engineering x = write_struct p "Engineering" (
      put_field p "thread_conf" t_struct (pos 1) (write_config p x.thread_conf)
      ∷ put_field p "breaker_conf" t_struct (pos 2) (write_breaker p x.breaker_conf)
      ∷ [])
