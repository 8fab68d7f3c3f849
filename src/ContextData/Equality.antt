-- ===== src/ContextData/Equality.antt =====
-- `operator==` of the context's classes (access_control/gen-cpp/data_define_template_types.h). The
-- comparison of `double` is a parameter.
pub mod Decides
pub mod Received
use dag_executor.Common.{Bool, true, false, not, ◌&&◌, List, [], ◌∷◌, eqb_list, if◌then◌else◌}
use dag_executor.Common.Int.{ℤ, eqb_ℤ}
use dag_executor.Common.OrderedMap.{Map}
use dag_executor.Util.{Text}
use dag_executor.ContextData.User.{UserData, Common}
use dag_executor.ContextData.Config.{ThreadConfig, CircuitBreaker, Engineering}
use dag_executor.ContextData.Item.{ItemData}
use dag_executor.ContextData.Video.{ShortVideo, Ecommerce, Live}
use dag_executor.ContextData.Context.{Context}

-- `==` of `bool`
abbrev pub eqb : Bool → Bool → Bool
eqb true b = b
eqb false b = not b

-- `==` of `std::vector`, and of `std::map`, whose entries are compared in their order
unfoldable pub eq_all {ℓ} : {A : Type ℓ} → (A → A → Bool) → List A → List A → Bool
eq_all eq [] [] = true
eq_all eq (x ∷ xs) (y ∷ ys) = eq x y && eq_all eq xs ys
eq_all eq _ _ = false

unfoldable pub eq_map {ℓ κ} :
    {K : Type ℓ} {V : Type κ} → (K → K → Bool) → (V → V → Bool) → Map K V → Map K V → Bool
unfolding eq_all
eq_map eqk eqv = eq_all (λ a b. eqk (a.0) (b.0) && eqv (a.1) (b.1))

-- `UserData::operator==`, which does not look at `__isset`
unfoldable pub eq_user : UserData → UserData → Bool
eq_user a b =
    if not (eqb_list a.name b.name)
    then false
    else if not (eqb_ℤ a.age b.age)
    then false
    else if not (eqb_list a.sex b.sex)
    then false
    else if not (eqb_list a.location b.location)
    then false
    else if not (eqb_ℤ a.device_id b.device_id)
    then false
    else true

-- `ThreadConfig::operator==`
unfoldable pub eq_config : ThreadConfig → ThreadConfig → Bool
eq_config a b =
    if not (eqb_ℤ a.num b.num)
    then false
    else if not (eqb_ℤ a.task_num b.task_num)
    then false
    else true

-- `CircuitBreaker::operator==`
unfoldable pub eq_breaker : CircuitBreaker → CircuitBreaker → Bool
unfolding eq_map
eq_breaker a b =
    if not (eq_map eqb_list eqb_ℤ a.max_latency b.max_latency)
    then false
    else if not (eq_map eqb_list eqb_list a.replace_node b.replace_node)
    then false
    else true

-- `Engineering::operator==`
unfoldable pub eq_engineering : Engineering → Engineering → Bool
unfolding eq_config eq_breaker
eq_engineering a b =
    if not (eq_config a.thread_conf b.thread_conf)
    then false
    else if not (eq_breaker a.breaker_conf b.breaker_conf)
    then false
    else true

-- `Common::operator==`
unfoldable pub eq_common : Common → Common → Bool
unfolding eq_user
eq_common a b = if not (eq_user a.user_data b.user_data) then false else true

module _ {D : Type 0} (eq_double : D → D → Bool) where
  -- `ItemData::operator==`
  unfoldable pub eq_item : ItemData D → ItemData D → Bool
  unfolding eq_map eq_all
  eq_item a b =
      if not (eqb_list a.item_id b.item_id)
      then false
      else if not (eqb_list a.location b.location)
      then false
      else if not (eq_map eqb_list (eq_all eq_double) a.scores b.scores)
      then false
      else if not (eq_all eqb_list a.tags b.tags)
      then false
      else true

  -- `ShortVideo::operator==`
  unfoldable pub eq_video : ShortVideo D → ShortVideo D → Bool
  unfolding eq_map eq_all eq_item
  eq_video a b =
      if not (eq_all eqb_ℤ a.list b.list)
      then false
      else if not (eq_all eqb_list a.model_list b.model_list)
      then false
      else if not (eq_map eqb_list (eq_all eq_double) a.user_scores b.user_scores)
      then false
      else if not (eq_map eqb_ℤ eq_item a.item_data b.item_data)
      then false
      else true

  -- `Ecommerce::operator==`
  unfoldable pub eq_ecom : Ecommerce D → Ecommerce D → Bool
  unfolding eq_map eq_all eq_item
  eq_ecom a b =
      if not (eq_all eqb_ℤ a.list b.list)
      then false
      else if not (eq_all eqb_list a.model_list b.model_list)
      then false
      else if not (eq_map eqb_list (eq_all eq_double) a.user_scores b.user_scores)
      then false
      else if not (eq_map eqb_ℤ eq_item a.item_data b.item_data)
      then false
      else true

  -- `Live::operator==`
  unfoldable pub eq_live : Live D → Live D → Bool
  unfolding eq_map eq_all eq_item
  eq_live a b =
      if not (eq_all eqb_ℤ a.list b.list)
      then false
      else if not (eq_all eqb_list a.model_list b.model_list)
      then false
      else if not (eq_map eqb_list (eq_all eq_double) a.user_scores b.user_scores)
      then false
      else if not (eq_map eqb_ℤ eq_item a.item_data b.item_data)
      then false
      else true

  -- `Context::operator==`
  unfoldable pub eq_context : Context D → Context D → Bool
  unfolding eq_engineering eq_video eq_ecom eq_live eq_common
  eq_context a b =
      if not (eqb a.isset_eng b.isset_eng)
      then false
      else if a.isset_eng && not (eq_engineering a.eng b.eng)
      then false
      else if not (eq_video a.video b.video)
      then false
      else if not (eq_ecom a.ecom b.ecom)
      then false
      else if not (eq_live a.live b.live)
      then false
      else if not (eq_common a.comm b.comm)
      then false
      else true
