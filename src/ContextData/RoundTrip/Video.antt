-- ===== src/ContextData/RoundTrip/Video.antt =====
-- Round trips of `ItemData`, `ShortVideo`, `Ecommerce` and `Live` (access_control/gen-cpp/
-- data_define_template_types.cpp).
use dag_executor.Common.{All, ℕ, refl, []}
use dag_executor.Wire.Protocol.{Protocol, t_i64, t_struct, IsI64}
use dag_executor.Wire.Reads.{
  Reads, Laws, Reads-return, Reads-map, Reads-stop, Reads-round, Reads-struct,
}
use dag_executor.Wire.ReadsAll.{Reads-map_entries}
use dag_executor.ContextData.RoundTrip.Parts.{
  rounds, IsShort, FitsScores, FitsInts, Reads-texts, Reads-ints, Reads-scores,
}
use dag_executor.Common.Int.{ℤ}
use dag_executor.Common.OrderedMap.{Map, Follows}
use dag_executor.Wire.Containers.{read_map, write_map}
use dag_executor.ContextData.Orders.{int_order}
use dag_executor.ContextData.Item.{ItemData, blank_item, item_field, read_item, write_item}
use dag_executor.ContextData.Video.{
  ShortVideo, video_field, read_video, write_video, Ecommerce, ecom_field, read_ecom, write_ecom,
  Live, live_field, read_live, write_live,
}

abbrev pub FitsItem : {D : Type 0} → ItemData D → Type 0
FitsItem x = FitsScores x.scores × IsShort x.tags

abbrev pub FitsItems : {D : Type 0} → Map ℤ (ItemData D) → Type 0
FitsItems m = IsShort m × Follows int_order [] m × All (λ e. IsI64 (e.0) × FitsItem (e.1)) m

abbrev pub FitsVideo : {D : Type 0} → ShortVideo D → Type 0
FitsVideo x =
    FitsInts x.list × IsShort x.model_list × FitsScores x.user_scores × FitsItems x.item_data

abbrev pub FitsEcom : {D : Type 0} → Ecommerce D → Type 0
FitsEcom x =
    FitsInts x.list × IsShort x.model_list × FitsScores x.user_scores × FitsItems x.item_data

abbrev pub FitsLive : {D : Type 0} → Live D → Type 0
FitsLive x =
    FitsInts x.list × IsShort x.model_list × FitsScores x.user_scores × FitsItems x.item_data

module _ {ℓ} {B : Type ℓ} {D : Type 0} {p : Protocol B D} (laws : Laws p) where
  pub item-Reads :
      (fuel : ℕ) (old x : ItemData D)
      → FitsItem x
      → Reads (read_item p (rounds fuel) old) (write_item p x) x
  unfolding read_item write_item item_field
  item-Reads fuel old x h =
      Reads-struct laws (item_field p) _ _ _ _ _
        (Reads-round laws _ _ _ _ refl (Reads-map _ (laws.string _)) (
          Reads-round laws _ _ _ _ refl (Reads-map _ (laws.string _)) (
            Reads-round laws _ _ _ _ refl (Reads-map _ (Reads-scores laws _ (h.0))) (
              Reads-round laws _ _ _ _ refl (Reads-map _ (Reads-texts laws _ (h.1)))
                (Reads-stop laws _ _ _)))))
        (Reads-return _)

  Reads-items :
      (fuel : ℕ) (m : Map ℤ (ItemData D))
      → FitsItems m
      → Reads
          (read_map p int_order p.read_i64 (λ old. read_item p (rounds fuel) old) blank_item)
          (write_map p t_i64 t_struct (λ x. p.write_i64 x) (λ x. write_item p x) m)
          m
  Reads-items fuel m h =
      Reads-map_entries int_order (λ e. IsI64 (e.0) × FitsItem (e.1)) p.read_i64 _
        (λ old. read_item p (rounds fuel) old) _ blank_item (λ e fits. laws.i64 (e.0) (fits.0))
        (λ e fits. item-Reads fuel blank_item (e.1) (fits.1)) laws t_i64 t_struct m (h.0) (h.1)
        (h.2)

  pub video-Reads :
      (fuel : ℕ) (old x : ShortVideo D)
      → FitsVideo x
      → Reads (read_video p (rounds fuel) old) (write_video p x) x
  unfolding read_video write_video video_field
  video-Reads fuel old x h =
      Reads-struct laws (video_field p (rounds fuel)) _ _ _ _ _
        (Reads-round laws _ _ _ _ refl (Reads-map _ (Reads-ints laws _ (h.0))) (
          Reads-round laws _ _ _ _ refl (Reads-map _ (Reads-texts laws _ (h.1))) (
            Reads-round laws _ _ _ _ refl (Reads-map _ (Reads-scores laws _ (h.2))) (
              Reads-round laws _ _ _ _ refl (Reads-map _ (Reads-items fuel _ (h.3)))
                (Reads-stop laws _ _ _)))))
        (Reads-return _)

  pub ecom-Reads :
      (fuel : ℕ) (old x : Ecommerce D)
      → FitsEcom x
      → Reads (read_ecom p (rounds fuel) old) (write_ecom p x) x
  unfolding read_ecom write_ecom ecom_field
  ecom-Reads fuel old x h =
      Reads-struct laws (ecom_field p (rounds fuel)) _ _ _ _ _
        (Reads-round laws _ _ _ _ refl (Reads-map _ (Reads-ints laws _ (h.0))) (
          Reads-round laws _ _ _ _ refl (Reads-map _ (Reads-texts laws _ (h.1))) (
            Reads-round laws _ _ _ _ refl (Reads-map _ (Reads-scores laws _ (h.2))) (
              Reads-round laws _ _ _ _ refl (Reads-map _ (Reads-items fuel _ (h.3)))
                (Reads-stop laws _ _ _)))))
        (Reads-return _)

  pub live-Reads :
      (fuel : ℕ) (old x : Live D)
      → FitsLive x
      → Reads (read_live p (rounds fuel) old) (write_live p x) x
  unfolding read_live write_live live_field
  live-Reads fuel old x h =
      Reads-struct laws (live_field p (rounds fuel)) _ _ _ _ _
        (Reads-round laws _ _ _ _ refl (Reads-map _ (Reads-ints laws _ (h.0))) (
          Reads-round laws _ _ _ _ refl (Reads-map _ (Reads-texts laws _ (h.1))) (
            Reads-round laws _ _ _ _ refl (Reads-map _ (Reads-scores laws _ (h.2))) (
              Reads-round laws _ _ _ _ refl (Reads-map _ (Reads-items fuel _ (h.3)))
                (Reads-stop laws _ _ _)))))
        (Reads-return _)
