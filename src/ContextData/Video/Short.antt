-- ===== src/ContextData/Video/Short.antt =====
-- `ShortVideo` of the context (access_control/gen-cpp/data_define_template_types.h and .cpp).
use dag_executor.Common.{ℕ, List, [], ◌∷◌, Bool, true, false, ◌&&◌, if◌then◌else◌}
use dag_executor.Common.Int.{ℤ, pos, eqb_ℤ}
use dag_executor.Common.OrderedMap.{Map}
use dag_executor.Util.{Text}
use dag_executor.Wire.Result.{M, return, ◌>>=◌}
use dag_executor.Wire.Protocol.{TType, t_double, t_i64, t_string, t_struct, t_map, t_list, Protocol}
use dag_executor.Wire.Struct.{typed, unknown_field, read_struct, put_field, write_struct, required}
use dag_executor.Wire.Containers.{read_list, read_map, write_list, write_map}
use dag_executor.ContextData.Orders.{text_order, int_order}
use dag_executor.ContextData.Item.{ItemData, blank_item, read_item, write_item}

-- `class ShortVideo`
pub record ShortVideo (D : Type 0) : Type 0 where
  pub list : List ℤ
  pub model_list : List Text
  pub user_scores : Map Text (List D)
  pub item_data : Map ℤ (ItemData D)

-- The object and the flags of `ShortVideo::read`.
pub record ShortVideoRead (D : Type 0) : Type 0 where
  pub object : ShortVideo D
  pub isset_list : Bool
  pub isset_model_list : Bool
  pub isset_user_scores : Bool
  pub isset_item_data : Bool

module _ {ℓ} {B : Type ℓ} {D : Type 0} (p : Protocol B D) where
  -- the switch of `ShortVideo::read`
  unfoldable pub video_field : ℕ → (ShortVideoRead D) → TType → ℤ → M B (ShortVideoRead D)
  video_field fuel s t id =
      if eqb_ℤ id (pos 1)
      then typed p t_list
          ((read_list p p.read_i64) >>= λ v.
            return (record s { object = record (s.object) { list = v }; isset_list = true }))
          s t
      else if eqb_ℤ id (pos 2)
      then typed p t_list
          ((read_list p p.read_string) >>= λ v.
            return
              (record s { object = record (s.object) { model_list = v }; isset_model_list = true }))
          s t
      else if eqb_ℤ id (pos 3)
      then typed p t_map
          ((read_map p text_order p.read_string (λ _. (read_list p p.read_double)) []) >>= λ v.
            return (record s {
              object = record (s.object) { user_scores = v };
              isset_user_scores = true;
            }))
          s t
      else if eqb_ℤ id (pos 4)
      then typed p t_map
          ((read_map p int_order p.read_i64 (λ old. read_item p fuel old) blank_item) >>= λ v.
            return
              (record s { object = record (s.object) { item_data = v }; isset_item_data = true }))
          s t
      else unknown_field p s t

  -- `ShortVideo::read` into an object that holds `old`
  unfoldable pub read_video : ℕ → ShortVideo D → M B (ShortVideo D)
  unfolding video_field
  read_video fuel old =
      read_struct p (video_field fuel)
        (λ s.
          required (s.isset_list && s.isset_model_list && s.isset_user_scores && s.isset_item_data)
            (s.object))
        fuel
        (record {
          object = old;
          isset_list = false;
          isset_model_list = false;
          isset_user_scores = false;
          isset_item_data = false;
        })

  -- `ShortVideo::write`
  unfoldable pub write_video : ShortVideo D → List B
  write_video x = write_struct p "ShortVideo" (
      put_field p "list" t_list (pos 1) (write_list p t_i64 (λ x. p.write_i64 x) x.list)
      ∷ put_field p "model_list" t_list (pos 2)
          (write_list p t_string (λ x. p.write_string x) x.model_list)
      ∷ put_field p "user_scores" t_map (pos 3) (
          write_map p t_string t_list (λ x. p.write_string x)
            (λ x. write_list p t_double (λ x. p.write_double x) x) x.user_scores)
      ∷ put_field p "item_data" t_map (pos 4)
          (write_map p t_i64 t_struct (λ x. p.write_i64 x) (λ x. write_item p x) x.item_data)
      ∷ [])
