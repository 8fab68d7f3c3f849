-- ===== src/ContextData/Returns/Video.antt =====
-- What `read` returns of `ItemData`, `ShortVideo`, `Ecommerce` and `Live` (access_control/gen-cpp/
-- data_define_template_types.cpp).
use dag_executor.Common.{ℕ, ◌≡◌, true, arith}
use dag_executor.Common.Int.{pos}
use dag_executor.Common.OrderedMap.{IsSorted-Follows}
use dag_executor.Wire.Protocol.{t_string, t_map, t_list, Protocol, IsI64}
use dag_executor.Wire.Containers.{read_map}
use dag_executor.Wire.Gives.{
  Gives, Gives-any, Gives-imp, Gives-unknown, Gives-store, Gives-struct, Gives-required, InRange,
}
use dag_executor.Wire.GivesAll.{Gives-map}
use dag_executor.ContextData.Orders.{int_order}
use dag_executor.ContextData.RoundTrip.Parts.{IsShort, FitsScores, FitsInts}
use dag_executor.ContextData.RoundTrip.Video.{FitsItem, FitsItems, FitsVideo, FitsEcom, FitsLive}
use dag_executor.ContextData.Returns.Parts.{Gives-texts, Gives-ints, Gives-scores}
use dag_executor.ContextData.Item.{ItemData, ItemDataRead, blank_item, item_field, read_item}
use dag_executor.ContextData.Video.{
  ShortVideo, ShortVideoRead, video_field, read_video, Ecommerce, EcommerceRead, ecom_field,
  read_ecom, Live, LiveRead, live_field, read_live,
}

module _ {ℓ} {B : Type ℓ} {D : Type 0} {p : Protocol B D} (range : InRange p) where
  -- Each field that was read fits its type.
  abbrev ItemInv : ItemDataRead D → Type 0
  ItemInv s =
      (s.isset_scores ≡ true → FitsScores (s.object.scores))
      × (s.isset_tags ≡ true → IsShort (s.object.tags))

  pub item-Gives : (fuel : ℕ) (old : ItemData D) → Gives (read_item p fuel old) FitsItem
  unfolding read_item item_field
  item-Gives fuel old =
      Gives-struct p ItemInv (item_field p) _ fuel _ (λ e. cc, λ e. cc)
        (λ s t id h.
          Gives-store p ItemInv id (pos 1) t_string t _ s h (Gives-any p.read_string) (λ v q. h)
            (Gives-store p ItemInv id (pos 2) t_string t _ s h (Gives-any p.read_string) (λ v q. h)
              (Gives-store p ItemInv id (pos 3) t_map t _ s h (Gives-scores range)
                (λ v q. (λ e. q, h.1))
                (Gives-store p ItemInv id (pos 4) t_list t _ s h (Gives-texts range)
                  (λ v q. (h.0, λ e. q)) (Gives-unknown p ItemInv t s h)))))
        (λ s h. Gives-required _ _ (λ e. ground (arith, e)))

  Gives-items :
      (fuel : ℕ)
      → Gives (read_map p int_order p.read_i64 (λ old. read_item p fuel old) blank_item) FitsItems
  Gives-items fuel =
      Gives-imp (λ m h. (h.0, IsSorted-Follows int_order m (h.1), h.2))
        (Gives-map int_order IsI64 FitsItem blank_item range.i64 (λ v. item-Gives fuel v) range)

  -- Each field that was read fits its type.
  abbrev VideoInv : ShortVideoRead D → Type 0
  VideoInv s =
      (s.isset_list ≡ true → FitsInts (s.object.list))
      × (s.isset_model_list ≡ true → IsShort (s.object.model_list))
      × (s.isset_user_scores ≡ true → FitsScores (s.object.user_scores))
      × (s.isset_item_data ≡ true → FitsItems (s.object.item_data))

  pub video-Gives : (fuel : ℕ) (old : ShortVideo D) → Gives (read_video p fuel old) FitsVideo
  unfolding read_video video_field
  video-Gives fuel old =
      Gives-struct p VideoInv (video_field p fuel) _ fuel _ (λ e. cc, λ e. cc, λ e. cc, λ e. cc)
        (λ s t id h.
          Gives-store p VideoInv id (pos 1) t_list t _ s h (Gives-ints range)
            (λ v q. (λ e. q, h.1, h.2, h.3))
            (Gives-store p VideoInv id (pos 2) t_list t _ s h (Gives-texts range)
              (λ v q. (h.0, λ e. q, h.2, h.3))
              (Gives-store p VideoInv id (pos 3) t_map t _ s h (Gives-scores range)
                (λ v q. (h.0, h.1, λ e. q, h.3))
                (Gives-store p VideoInv id (pos 4) t_map t _ s h (Gives-items fuel)
                  (λ v q. (h.0, h.1, h.2, λ e. q)) (Gives-unknown p VideoInv t s h)))))
        (λ s h. Gives-required _ _ (λ e. ground (arith, e)))

  -- Each field that was read fits its type.
  abbrev EcomInv : EcommerceRead D → Type 0
  EcomInv s =
      (s.isset_list ≡ true → FitsInts (s.object.list))
      × (s.isset_model_list ≡ true → IsShort (s.object.model_list))
      × (s.isset_user_scores ≡ true → FitsScores (s.object.user_scores))
      × (s.isset_item_data ≡ true → FitsItems (s.object.item_data))

  pub ecom-Gives : (fuel : ℕ) (old : Ecommerce D) → Gives (read_ecom p fuel old) FitsEcom
  unfolding read_ecom ecom_field
  ecom-Gives fuel old =
      Gives-struct p EcomInv (ecom_field p fuel) _ fuel _ (λ e. cc, λ e. cc, λ e. cc, λ e. cc)
        (λ s t id h.
          Gives-store p EcomInv id (pos 1) t_list t _ s h (Gives-ints range)
            (λ v q. (λ e. q, h.1, h.2, h.3))
            (Gives-store p EcomInv id (pos 2) t_list t _ s h (Gives-texts range)
              (λ v q. (h.0, λ e. q, h.2, h.3))
              (Gives-store p EcomInv id (pos 3) t_map t _ s h (Gives-scores range)
                (λ v q. (h.0, h.1, λ e. q, h.3))
                (Gives-store p EcomInv id (pos 4) t_map t _ s h (Gives-items fuel)
                  (λ v q. (h.0, h.1, h.2, λ e. q)) (Gives-unknown p EcomInv t s h)))))
        (λ s h. Gives-required _ _ (λ e. ground (arith, e)))

  -- Each field that was read fits its type.
  abbrev LiveInv : LiveRead D → Type 0
  LiveInv s =
      (s.isset_list ≡ true → FitsInts (s.object.list))
      × (s.isset_model_list ≡ true → IsShort (s.object.model_list))
      × (s.isset_user_scores ≡ true → FitsScores (s.object.user_scores))
      × (s.isset_item_data ≡ true → FitsItems (s.object.item_data))

  pub live-Gives : (fuel : ℕ) (old : Live D) → Gives (read_live p fuel old) FitsLive
  unfolding read_live live_field
  live-Gives fuel old =
      Gives-struct p LiveInv (live_field p fuel) _ fuel _ (λ e. cc, λ e. cc, λ e. cc, λ e. cc)
        (λ s t id h.
          Gives-store p LiveInv id (pos 1) t_list t _ s h (Gives-ints range)
            (λ v q. (λ e. q, h.1, h.2, h.3))
            (Gives-store p LiveInv id (pos 2) t_list t _ s h (Gives-texts range)
              (λ v q. (h.0, λ e. q, h.2, h.3))
              (Gives-store p LiveInv id (pos 3) t_map t _ s h (Gives-scores range)
                (λ v q. (h.0, h.1, λ e. q, h.3))
                (Gives-store p LiveInv id (pos 4) t_map t _ s h (Gives-items fuel)
                  (λ v q. (h.0, h.1, h.2, λ e. q)) (Gives-unknown p LiveInv t s h)))))
        (λ s h. Gives-required _ _ (λ e. ground (arith, e)))
