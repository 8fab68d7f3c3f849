-- ===== src/LogService/Controler.antt =====
-- `PrometheusControler` of log_service/controler.h and controler.cpp. The registry and the exposer
-- of prometheus are parameters.
use dag_executor.Common.{◌≡◌, refl, Bool, true, false, not, List, [], ◌∷◌, if◌then◌else◌}
use dag_executor.Common.Int.{ℤ}
use dag_executor.Util.{Text}

-- What the code calls: a family of counters registered under a name, the counter in it for the
-- method GET, its increment, and `RegisterCollectable`.
pub record Prometheus {ℓ} (Registry Exposer Family Counter : Type ℓ) : Type ℓ where
  pub new_registry : Registry
  pub build_counter : Text → Registry → Family × Registry
  pub add_counter : Family → Registry → Counter × Registry
  pub increment : Counter → ℤ → Registry → Registry
  pub register_collectable : Registry → Exposer → Exposer

-- `class PrometheusControler`
pub record PrometheusControler {ℓ} (Registry Exposer : Type ℓ) : Type ℓ where
  pub registry : Registry
  pub exposer : Exposer
  pub flag : Bool

module _ {ℓ} {Registry Exposer Family Counter : Type ℓ}
    (prometheus : Prometheus Registry Exposer Family Counter) where
  -- `PrometheusControler::PrometheusControler`; `exposer` is the one made for the host.
  abbrev pub new_controler : Exposer → PrometheusControler Registry Exposer
  new_controler exposer = record {
    registry = prometheus.new_registry;
    exposer = exposer;
    flag = false;
  }

  -- `if(flag == false) exposer_.RegisterCollectable(registry_)`
  unfoldable pub expose :
      PrometheusControler Registry Exposer → PrometheusControler Registry Exposer
  expose c =
      if not c.flag
      then record c { exposer = prometheus.register_collectable c.registry c.exposer }
      else c

  -- `PrometheusControler::produce_`; the labels and the time are not used.
  unfoldable pub produce :
      PrometheusControler Registry Exposer → Text → ℤ → PrometheusControler Registry Exposer
  unfolding expose
  produce c metric_name counter =
      let flagged : PrometheusControler Registry Exposer = record c { flag = true } in
      let family : Family × Registry = prometheus.build_counter metric_name c.registry in
      let built : PrometheusControler Registry Exposer =
        expose (record flagged { registry = family.1 }) in
      let added : Counter × Registry = prometheus.add_counter (family.0) built.registry in
      expose (record built { registry = prometheus.increment (added.0) counter (added.1) })

  -- Calls one after the other.
  unfoldable pub produce_all :
      PrometheusControler Registry Exposer → List (Text × ℤ) → PrometheusControler Registry Exposer
  unfolding produce
  produce_all c [] = c
  produce_all c ((name, counter) ∷ calls) = produce_all (produce c name counter) calls

  -- The registry behind the calls, in which each call has incremented its counter once.
  unfoldable pub counted : Registry → List (Text × ℤ) → Registry
  counted r [] = r
  counted r ((name, counter) ∷ calls) =
      let family : Family × Registry = prometheus.build_counter name r in
      let added : Counter × Registry = prometheus.add_counter (family.0) (family.1) in
      counted (prometheus.increment (added.0) counter (added.1)) calls

  -- However often `produce_` is called, the registry has each call's increment once, in order, but
  -- the exposer is as it was: the registry is never registered with it, since `produce_` sets the
  -- flag before it tests it.
  pub produce_all-unexposed :
      (c : PrometheusControler Registry Exposer) (calls : List (Text × ℤ))
      → ((produce_all c calls).exposer ≡ c.exposer)
        × ((produce_all c calls).registry ≡ counted c.registry calls)
  unfolding produce_all produce expose counted
  produce_all-unexposed c [] = (refl, refl)
  produce_all-unexposed c ((name, counter) ∷ calls) =
      produce_all-unexposed (produce c name counter) calls
