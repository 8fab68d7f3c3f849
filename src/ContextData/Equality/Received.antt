-- ===== src/ContextData/Equality/Received.antt =====
-- What `operator==` of `Context` says of two contexts that are transferred
-- (access_control/gen-cpp/data_define_template_types.h).
use dag_executor.Common.{◌≡◌, ◌↔◌, arith, Bool, true, false}
use dag_executor.ContextData.User.{UserData, Common}
use dag_executor.ContextData.Item.{ItemData}
use dag_executor.ContextData.Video.{ShortVideo, Ecommerce, Live}
use dag_executor.ContextData.Context.{Context}
use dag_executor.ContextData.RoundTrip.User.{received_user, received_common}
use dag_executor.ContextData.RoundTrip.Whole.{received}
use dag_executor.ContextData.Equality.{
  eq_user, eq_common, eq_item, eq_video, eq_ecom, eq_live, eq_context,
}
use dag_executor.ContextData.Equality.Decides.{
  Decides, eqb_list_iff, eqb_ℤ_iff, eqb_iff, eq_all_iff, eq_map_iff, eq_engineering_iff,
}

eq_user_iff : (a b : UserData) → (eq_user a b ≡ true) ↔ (received_user a ≡ received_user b)
unfolding eq_user
eq_user_iff a b = ground (
  arith,
  eqb_list_iff a.name b.name,
  eqb_ℤ_iff a.age b.age,
  eqb_list_iff a.sex b.sex,
  eqb_list_iff a.location b.location,
  eqb_ℤ_iff a.device_id b.device_id,
)

eq_common_iff : (a b : Common) → (eq_common a b ≡ true) ↔ (received_common a ≡ received_common b)
unfolding eq_common
eq_common_iff a b = ground (arith, eq_user_iff a.user_data b.user_data)

module _ {D : Type 0} {eq_double : D → D → Bool} (h : Decides eq_double) where
  eq_item_iff : (a b : ItemData D) → (eq_item eq_double a b ≡ true) ↔ (a ≡ b)
  unfolding eq_item
  eq_item_iff a b = ground (
    arith,
    eqb_list_iff a.item_id b.item_id,
    eqb_list_iff a.location b.location,
    eq_map_iff eqb_list_iff (eq_all_iff h) a.scores b.scores,
    eq_all_iff eqb_list_iff a.tags b.tags,
  )

  eq_video_iff : (a b : ShortVideo D) → (eq_video eq_double a b ≡ true) ↔ (a ≡ b)
  unfolding eq_video
  eq_video_iff a b = ground (
    arith,
    eq_all_iff eqb_ℤ_iff a.list b.list,
    eq_all_iff eqb_list_iff a.model_list b.model_list,
    eq_map_iff eqb_list_iff (eq_all_iff h) a.user_scores b.user_scores,
    eq_map_iff eqb_ℤ_iff eq_item_iff a.item_data b.item_data,
  )

  eq_ecom_iff : (a b : Ecommerce D) → (eq_ecom eq_double a b ≡ true) ↔ (a ≡ b)
  unfolding eq_ecom
  eq_ecom_iff a b = ground (
    arith,
    eq_all_iff eqb_ℤ_iff a.list b.list,
    eq_all_iff eqb_list_iff a.model_list b.model_list,
    eq_map_iff eqb_list_iff (eq_all_iff h) a.user_scores b.user_scores,
    eq_map_iff eqb_ℤ_iff eq_item_iff a.item_data b.item_data,
  )

  eq_live_iff : (a b : Live D) → (eq_live eq_double a b ≡ true) ↔ (a ≡ b)
  unfolding eq_live
  eq_live_iff a b = ground (
    arith,
    eq_all_iff eqb_ℤ_iff a.list b.list,
    eq_all_iff eqb_list_iff a.model_list b.model_list,
    eq_map_iff eqb_list_iff (eq_all_iff h) a.user_scores b.user_scores,
    eq_map_iff eqb_ℤ_iff eq_item_iff a.item_data b.item_data,
  )

-- Where `==` of `double` tells exactly the equal numbers, as it does without NaN and with one zero:
-- two contexts are equal by `operator==` if and only if the same context arrives of both, in any
-- object without an `eng` of its own.
pub eq_context_iff :
    {D : Type 0} {eq_double : D → D → Bool}
    → ((x y : D) → (eq_double x y ≡ true) ↔ (x ≡ y))
    → (old a b : Context D) → old.isset_eng ≡ false
    → (eq_context eq_double a b ≡ true) ↔ (received old a ≡ received old b)
unfolding eq_context
eq_context_iff h old a b e = ground (
  arith,
  eqb_iff a.isset_eng b.isset_eng,
  eq_engineering_iff a.eng b.eng,
  eq_video_iff h a.video b.video,
  eq_ecom_iff h a.ecom b.ecom,
  eq_live_iff h a.live b.live,
  eq_common_iff a.comm b.comm,
)
