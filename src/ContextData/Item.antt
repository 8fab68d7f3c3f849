-- ===== src/ContextData/Item.antt =====
-- `ItemData` of the context (access_control/gen-cpp/data_define_template_types.h and .cpp).
use dag_executor.Common.{ℕ, List, [], ◌∷◌, Bool, true, false, ◌&&◌, if◌then◌else◌}
use dag_executor.Common.Int.{ℤ, pos, eqb_ℤ}
use dag_executor.Common.OrderedMap.{Map}
use dag_executor.Util.{Text}
use dag_executor.Wire.Result.{M, return, ◌>>=◌}
use dag_executor.Wire.Protocol.{TType, t_double, t_string, t_map, t_list, Protocol}
use dag_executor.Wire.Struct.{typed, unknown_field, read_struct, put_field, write_struct, required}
use dag_executor.Wire.Containers.{read_list, read_map, write_list, write_map}
use dag_executor.ContextData.Orders.{text_order}

-- `class ItemData`
pub record ItemData (D : Type 0) : Type 0 where
  pub item_id : Text
  pub location : Text
  pub scores : Map Text (List D)
  pub tags : List Text

-- The object and the flags of `ItemData::read`.
pub record ItemDataRead (D : Type 0) : Type 0 where
  pub object : ItemData D
  pub isset_item_id : Bool
  pub isset_location : Bool
  pub isset_scores : Bool
  pub isset_tags : Bool

-- `ItemData::ItemData`
abbrev pub blank_item : {D : Type 0} → ItemData D
blank_item = record { item_id = []; location = []; scores = []; tags = [] }

module _ {ℓ} {B : Type ℓ} {D : Type 0} (p : Protocol B D) where
  -- the switch of `ItemData::read`
  unfoldable pub item_field : (ItemDataRead D) → TType → ℤ → M B (ItemDataRead D)
  item_field s t id =
      if eqb_ℤ id (pos 1)
      then typed p t_string
          (p.read_string >>= λ v.
            return (record s { object = record (s.object) { item_id = v }; isset_item_id = true }))
          s t
      else if eqb_ℤ id (pos 2)
      then typed p t_string
          (p.read_string >>= λ v.
            return
              (record s { object = record (s.object) { location = v }; isset_location = true }))
          s t
      else if eqb_ℤ id (pos 3)
      then typed p t_map
          ((read_map p text_order p.read_string (λ _. (read_list p p.read_double)) []) >>= λ v.
            return (record s { object = record (s.object) { scores = v }; isset_scores = true }))
          s t
      else if eqb_ℤ id (pos 4)
      then typed p t_list
          ((read_list p p.read_string) >>= λ v.
            return (record s { object = record (s.object) { tags = v }; isset_tags = true }))
          s t
      else unknown_field p s t

  -- `ItemData::read` into an object that holds `old`
  unfoldable pub read_item : ℕ → ItemData D → M B (ItemData D)
  unfolding item_field
  read_item fuel old =
      read_struct p item_field
        (λ s.
          required (s.isset_item_id && s.isset_location && s.isset_scores && s.isset_tags)
            (s.object))
        fuel
        (record {
          object = old;
          isset_item_id = false;
          isset_location = false;
          isset_scores = false;
          isset_tags = false;
        })

  -- `ItemData::write`
  unfoldable pub write_item : ItemData D → List B
  write_item x = write_struct p "ItemData" (
      put_field p "item_id" t_string (pos 1) (p.write_string x.item_id)
      ∷ put_field p "location" t_string (pos 2) (p.write_string x.location)
      ∷ put_field p "scores" t_map (pos 3) (
          write_map p t_string t_list (λ x. p.write_string x)
            (λ x. write_list p t_double (λ x. p.write_double x) x) x.scores)
      ∷ put_field p "tags" t_list (pos 4) (write_list p t_string (λ x. p.write_string x) x.tags)
      ∷ [])
