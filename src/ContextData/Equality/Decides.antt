-- ===== src/ContextData/Equality/Decides.antt =====
-- What an `operator==` has to do: hold of equal objects only. For the containers and the classes
-- without flags (access_control/gen-cpp/data_define_template_types.h).
use dag_executor.Common.{ℕ, ◌≡◌, ◌↔◌, arith, Bool, true, false, List, [], ◌∷◌, eqb_list}
use dag_executor.Common.Int.{ℤ, pos, negsuc, eqb_ℤ}
use dag_executor.Common.OrderedMap.{Map}
use dag_executor.ContextData.Config.{ThreadConfig, CircuitBreaker, Engineering}
use dag_executor.ContextData.Equality.{eqb, eq_all, eq_map, eq_config, eq_breaker, eq_engineering}

-- `eq` tells exactly the equal values.
abbrev pub Decides {ℓ} : {A : Type ℓ} → (A → A → Bool) → Type ℓ
Decides {A = A} eq = (a b : A) → (eq a b ≡ true) ↔ (a ≡ b)

pub eqb_list_iff : (a b : List ℕ) → (eqb_list a b ≡ true) ↔ (a ≡ b)
eqb_list_iff [] [] = ground arith
eqb_list_iff [] (y ∷ ys) = ground arith
eqb_list_iff (x ∷ xs) [] = ground arith
eqb_list_iff (x ∷ xs) (y ∷ ys) = ground (arith, eqb_list_iff xs ys)

pub eqb_ℤ_iff : (a b : ℤ) → (eqb_ℤ a b ≡ true) ↔ (a ≡ b)
eqb_ℤ_iff (pos a) (pos b) = ground arith
eqb_ℤ_iff (pos a) (negsuc b) = ground arith
eqb_ℤ_iff (negsuc a) (pos b) = ground arith
eqb_ℤ_iff (negsuc a) (negsuc b) = ground arith

pub eqb_iff : (a b : Bool) → (eqb a b ≡ true) ↔ (a ≡ b)
eqb_iff true b = ground arith
eqb_iff false b = ground arith

pub eq_all_iff {ℓ} :
    {A : Type ℓ} {eq : A → A → Bool} (h : Decides eq) (a b : List A)
    → (eq_all eq a b ≡ true) ↔ (a ≡ b)
unfolding eq_all
eq_all_iff h [] [] = ground arith
eq_all_iff h [] (y ∷ ys) = ground arith
eq_all_iff h (x ∷ xs) [] = ground arith
eq_all_iff h (x ∷ xs) (y ∷ ys) = ground (arith, h x y, eq_all_iff h xs ys)

pub eq_map_iff {ℓ κ} :
    {K : Type ℓ} {V : Type κ} {eqk : K → K → Bool} {eqv : V → V → Bool} (hk : Decides eqk)
    (hv : Decides eqv) (a b : Map K V)
    → (eq_map eqk eqv a b ≡ true) ↔ (a ≡ b)
unfolding eq_map eq_all
eq_map_iff hk hv [] [] = ground arith
eq_map_iff hk hv [] (y ∷ ys) = ground arith
eq_map_iff hk hv (x ∷ xs) [] = ground arith
eq_map_iff hk hv ((k, v) ∷ xs) ((l, w) ∷ ys) =
    ground (arith, hk k l, hv v w, eq_map_iff hk hv xs ys)

pub eq_config_iff : (a b : ThreadConfig) → (eq_config a b ≡ true) ↔ (a ≡ b)
unfolding eq_config
eq_config_iff a b = ground (arith, eqb_ℤ_iff a.num b.num, eqb_ℤ_iff a.task_num b.task_num)

pub eq_breaker_iff : (a b : CircuitBreaker) → (eq_breaker a b ≡ true) ↔ (a ≡ b)
unfolding eq_breaker
eq_breaker_iff a b = ground (
  arith,
  eq_map_iff eqb_list_iff eqb_ℤ_iff a.max_latency b.max_latency,
  eq_map_iff eqb_list_iff eqb_list_iff a.replace_node b.replace_node,
)

pub eq_engineering_iff : (a b : Engineering) → (eq_engineering a b ≡ true) ↔ (a ≡ b)
unfolding eq_engineering
eq_engineering_iff a b =
    ground (
      arith,
      eq_config_iff a.thread_conf b.thread_conf,
      eq_breaker_iff a.breaker_conf b.breaker_conf,
    )
