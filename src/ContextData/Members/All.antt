-- ===== src/ContextData/Members/All.antt =====
-- Copies and swaps of the classes of a context's items and of `Context`, member by member, and the
-- setters of `Context` (access_control/gen-cpp/data_define_template_types.cpp).
use dag_executor.Common.{true}
use dag_executor.ContextData.User.{Common}
use dag_executor.ContextData.Config.{Engineering}
use dag_executor.ContextData.Item.{ItemData}
use dag_executor.ContextData.Video.{ShortVideo, Ecommerce, Live}
use dag_executor.ContextData.Context.{Context}
use dag_executor.ContextData.Members.Parts.{
  assign_engineering, swap_engineering, assign_common, swap_common,
}

-- `ItemData::operator=`, onto `a`
unfoldable pub assign_item : {D : Type 0} → ItemData D → ItemData D → ItemData D
assign_item a other = record a {
  item_id = other.item_id;
  location = other.location;
  scores = other.scores;
  tags = other.tags;
}

-- `swap` of two `ItemData`
unfoldable pub swap_item : {D : Type 0} → ItemData D → ItemData D → ItemData D × ItemData D
swap_item a b = (
  record a { item_id = b.item_id; location = b.location; scores = b.scores; tags = b.tags },
  record b { item_id = a.item_id; location = a.location; scores = a.scores; tags = a.tags },
)

-- `ShortVideo::operator=`, onto `a`
unfoldable pub assign_video : {D : Type 0} → ShortVideo D → ShortVideo D → ShortVideo D
assign_video a other = record a {
  list = other.list;
  model_list = other.model_list;
  user_scores = other.user_scores;
  item_data = other.item_data;
}

-- `swap` of two `ShortVideo`
unfoldable pub swap_video : {D : Type 0} → ShortVideo D → ShortVideo D → ShortVideo D × ShortVideo D
swap_video a b = (
  record a {
    list = b.list;
    model_list = b.model_list;
    user_scores = b.user_scores;
    item_data = b.item_data;
  },
  record b {
    list = a.list;
    model_list = a.model_list;
    user_scores = a.user_scores;
    item_data = a.item_data;
  },
)

-- `Ecommerce::operator=`, onto `a`
unfoldable pub assign_ecom : {D : Type 0} → Ecommerce D → Ecommerce D → Ecommerce D
assign_ecom a other = record a {
  list = other.list;
  model_list = other.model_list;
  user_scores = other.user_scores;
  item_data = other.item_data;
}

-- `swap` of two `Ecommerce`
unfoldable pub swap_ecom : {D : Type 0} → Ecommerce D → Ecommerce D → Ecommerce D × Ecommerce D
swap_ecom a b = (
  record a {
    list = b.list;
    model_list = b.model_list;
    user_scores = b.user_scores;
    item_data = b.item_data;
  },
  record b {
    list = a.list;
    model_list = a.model_list;
    user_scores = a.user_scores;
    item_data = a.item_data;
  },
)

-- `Live::operator=`, onto `a`
unfoldable pub assign_live : {D : Type 0} → Live D → Live D → Live D
assign_live a other = record a {
  list = other.list;
  model_list = other.model_list;
  user_scores = other.user_scores;
  item_data = other.item_data;
}

-- `swap` of two `Live`
unfoldable pub swap_live : {D : Type 0} → Live D → Live D → Live D × Live D
swap_live a b = (
  record a {
    list = b.list;
    model_list = b.model_list;
    user_scores = b.user_scores;
    item_data = b.item_data;
  },
  record b {
    list = a.list;
    model_list = a.model_list;
    user_scores = a.user_scores;
    item_data = a.item_data;
  },
)

-- `Context::operator=`, onto `a`
unfoldable pub assign_context : {D : Type 0} → Context D → Context D → Context D
unfolding assign_engineering assign_video assign_ecom assign_live assign_common
assign_context a other = record a {
  eng = assign_engineering a.eng other.eng;
  video = assign_video a.video other.video;
  ecom = assign_ecom a.ecom other.ecom;
  live = assign_live a.live other.live;
  comm = assign_common a.comm other.comm;
  isset_eng = other.isset_eng;
}

-- `swap` of two `Context`
unfoldable pub swap_context : {D : Type 0} → Context D → Context D → Context D × Context D
unfolding swap_engineering swap_video swap_ecom swap_live swap_common
swap_context a b = (
  record a {
    eng = (swap_engineering a.eng b.eng).0;
    video = (swap_video a.video b.video).0;
    ecom = (swap_ecom a.ecom b.ecom).0;
    live = (swap_live a.live b.live).0;
    comm = (swap_common a.comm b.comm).0;
    isset_eng = b.isset_eng;
  },
  record b {
    eng = (swap_engineering a.eng b.eng).1;
    video = (swap_video a.video b.video).1;
    ecom = (swap_ecom a.ecom b.ecom).1;
    live = (swap_live a.live b.live).1;
    comm = (swap_common a.comm b.comm).1;
    isset_eng = a.isset_eng;
  },
)

module _ {D : Type 0} where
  -- `Context::__set_eng`, the one setter that marks its member
  unfoldable pub set_eng : Context D → Engineering → Context D
  set_eng c val = record c { eng = val; isset_eng = true }

  -- `Context::__set_video`
  unfoldable pub set_video : Context D → ShortVideo D → Context D
  set_video c val = record c { video = val }

  -- `Context::__set_ecom`
  unfoldable pub set_ecom : Context D → Ecommerce D → Context D
  set_ecom c val = record c { ecom = val }

  -- `Context::__set_live`
  unfoldable pub set_live : Context D → Live D → Context D
  set_live c val = record c { live = val }

  -- `Context::__set_comm`
  unfoldable pub set_comm : Context D → Common → Context D
  set_comm c val = record c { comm = val }
