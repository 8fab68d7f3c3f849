-- ===== src/ContextData/Returns/User.antt =====
-- What `read` returns of `UserData` and `Common` (access_control/gen-cpp/
-- data_define_template_types.cpp).
use dag_executor.Common.{ℕ}
use dag_executor.Common.Int.{pos}
use dag_executor.Wire.Protocol.{t_i32, t_string, t_struct, Protocol}
use dag_executor.Wire.Gives.{
  Gives, Gives-return, Gives-any, Gives-unknown, Gives-store, Gives-struct, Gives-required, InRange,
}
use dag_executor.ContextData.RoundTrip.User.{FitsUser}
use dag_executor.ContextData.User.{
  UserData, UserDataRead, user_field, read_user, Common, common_field, read_common,
}

abbrev UserInv : UserDataRead → Type 0
UserInv s = FitsUser s.object

abbrev CommonInv : Common → Type 0
CommonInv c = FitsUser c.user_data

module _ {ℓ} {B : Type ℓ} {D : Type 0} {p : Protocol B D} (range : InRange p) where
  pub user-Gives :
      (fuel : ℕ) (old : UserData) → FitsUser old → Gives (read_user p fuel old) FitsUser
  unfolding read_user user_field
  user-Gives fuel old k =
      Gives-struct p UserInv (user_field p) _ fuel _ k
        (λ s t id h.
          Gives-store p UserInv id (pos 1) t_string t _ s h (Gives-any p.read_string) (λ v q. h)
            (Gives-store p UserInv id (pos 2) t_i32 t _ s h range.i32 (λ v q. (q, h.1))
              (Gives-store p UserInv id (pos 3) t_string t _ s h (Gives-any p.read_string)
                (λ v q. h)
                (Gives-store p UserInv id (pos 4) t_string t _ s h (Gives-any p.read_string)
                  (λ v q. h)
                  (Gives-store p UserInv id (pos 5) t_i32 t _ s h range.i32 (λ v q. (h.0, q))
                    (Gives-unknown p UserInv t s h))))))
        (λ s h. Gives-required _ _ (λ e. h))

  pub common-Gives :
      (fuel : ℕ) (old : Common)
      → FitsUser old.user_data
      → Gives (read_common p fuel old) (λ c. FitsUser c.user_data)
  unfolding read_common common_field
  common-Gives fuel old k =
      Gives-struct p CommonInv (common_field p fuel) _ fuel _ k
        (λ s t id h.
          Gives-store p CommonInv id (pos 1) t_struct t _ s h (user-Gives fuel _ h) (λ v q. q)
            (Gives-unknown p CommonInv t s h))
        (λ s h. Gives-return s h)
