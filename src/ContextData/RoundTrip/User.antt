-- ===== src/ContextData/RoundTrip/User.antt =====
-- Round trips of `UserData` and `Common` (access_control/gen-cpp/data_define_template_types.cpp).
use dag_executor.Common.{ℕ, refl, true}
use dag_executor.Wire.Protocol.{Protocol, IsI32}
use dag_executor.Wire.Reads.{
  Reads, Laws, Reads-return, Reads-map, Reads-stop, Reads-round, Reads-struct,
}
use dag_executor.ContextData.RoundTrip.Parts.{rounds}
use dag_executor.ContextData.User.{
  UserData, user_field, read_user, write_user, Common, common_field, read_common, write_common,
}

abbrev pub FitsUser : UserData → Type 0
FitsUser u = IsI32 u.age × IsI32 u.device_id

-- What arrives: `write` writes `device_id` whether it was set or not.
abbrev pub received_user : UserData → UserData
received_user u = record u { isset_device_id = true }

module _ {ℓ} {B : Type ℓ} {D : Type 0} {p : Protocol B D} (laws : Laws p) where
  pub user-Reads :
      (fuel : ℕ) (old u : UserData)
      → FitsUser u
      → Reads (read_user p (rounds fuel) old) (write_user p u) (received_user u)
  unfolding read_user write_user user_field
  user-Reads fuel old u h =
      Reads-struct laws (user_field p) _ _ _ _ _
        (Reads-round laws _ _ _ _ refl (Reads-map _ (laws.string _)) (
          Reads-round laws _ _ _ _ refl (Reads-map _ (laws.i32 _ (h.0))) (
            Reads-round laws _ _ _ _ refl (Reads-map _ (laws.string _)) (
              Reads-round laws _ _ _ _ refl (Reads-map _ (laws.string _)) (
                Reads-round laws _ _ _ _ refl (Reads-map _ (laws.i32 _ (h.1)))
                  (Reads-stop laws _ _ _))))))
        (Reads-return _)

abbrev pub received_common : Common → Common
received_common c = record c { user_data = received_user c.user_data; isset_user_data = true }

module _ {ℓ} {B : Type ℓ} {D : Type 0} {p : Protocol B D} (laws : Laws p) where
  pub common-Reads :
      (fuel : ℕ) (old x : Common)
      → FitsUser x.user_data
      → Reads (read_common p (rounds fuel) old) (write_common p x) (received_common x)
  unfolding read_common write_common common_field
  common-Reads fuel old x h =
      Reads-struct laws (common_field p (rounds fuel)) _ _ _ _ _
        (Reads-round laws _ _ _ _ refl (Reads-map _ (user-Reads laws _ _ _ h))
          (Reads-stop laws _ _ _))
        (Reads-return _)
