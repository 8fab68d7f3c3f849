-- ===== src/ContextData/User.antt =====
-- `UserData` and `Common` of the context (access_control/gen-cpp/data_define_template_types.h
-- and .cpp).
use dag_executor.Common.{ℕ, List, [], ◌∷◌, Bool, true, false, ◌&&◌, if◌then◌else◌}
use dag_executor.Common.Int.{ℤ, pos, eqb_ℤ}
use dag_executor.Util.{Text}
use dag_executor.Wire.Result.{M, return, ◌>>=◌}
use dag_executor.Wire.Protocol.{TType, t_i32, t_string, t_struct, Protocol}
use dag_executor.Wire.Struct.{typed, unknown_field, read_struct, put_field, write_struct, required}

-- `class UserData`, its flags in `__isset` included
pub record UserData : Type 0 where
  pub name : Text
  pub age : ℤ
  pub sex : Text
  pub location : Text
  pub device_id : ℤ
  pub isset_device_id : Bool

-- The object and the flags of `UserData::read`.
pub record UserDataRead : Type 0 where
  pub object : UserData
  pub isset_name : Bool
  pub isset_age : Bool
  pub isset_sex : Bool
  pub isset_location : Bool

module _ {ℓ} {B : Type ℓ} {D : Type 0} (p : Protocol B D) where
  -- the switch of `UserData::read`
  unfoldable pub user_field : UserDataRead → TType → ℤ → M B UserDataRead
  user_field s t id =
      if eqb_ℤ id (pos 1)
      then typed p t_string
          (p.read_string >>= λ v.
            return (record s { object = record (s.object) { name = v }; isset_name = true }))
          s t
      else if eqb_ℤ id (pos 2)
      then typed p t_i32
          (p.read_i32 >>= λ v.
            return (record s { object = record (s.object) { age = v }; isset_age = true }))
          s t
      else if eqb_ℤ id (pos 3)
      then typed p t_string
          (p.read_string >>= λ v.
            return (record s { object = record (s.object) { sex = v }; isset_sex = true }))
          s t
      else if eqb_ℤ id (pos 4)
      then typed p t_string
          (p.read_string >>= λ v.
            return
              (record s { object = record (s.object) { location = v }; isset_location = true }))
          s t
      else if eqb_ℤ id (pos 5)
      then typed p t_i32
          (p.read_i32 >>= λ v.
            return
              (record s { object = record (s.object) { device_id = v; isset_device_id = true } }))
          s t
      else unknown_field p s t

  -- `UserData::read` into an object that holds `old`
  unfoldable pub read_user : ℕ → UserData → M B UserData
  unfolding user_field
  read_user fuel old =
      read_struct p user_field
        (λ s. required (s.isset_name && s.isset_age && s.isset_sex && s.isset_location) (s.object))
        fuel
        (record {
          object = old;
          isset_name = false;
          isset_age = false;
          isset_sex = false;
          isset_location = false;
        })

  -- `UserData::write`
  unfoldable pub write_user : UserData → List B
  write_user x = write_struct p "UserData" (
      put_field p "name" t_string (pos 1) (p.write_string x.name)
      ∷ put_field p "age" t_i32 (pos 2) (p.write_i32 x.age)
      ∷ put_field p "sex" t_string (pos 3) (p.write_string x.sex)
      ∷ put_field p "location" t_string (pos 4) (p.write_string x.location)
      ∷ put_field p "device_id" t_i32 (pos 5) (p.write_i32 x.device_id)
      ∷ [])

-- `class Common`, its flags in `__isset` included
pub record Common : Type 0 where
  pub user_data : UserData
  pub isset_user_data : Bool

module _ {ℓ} {B : Type ℓ} {D : Type 0} (p : Protocol B D) where
  -- the switch of `Common::read`
  unfoldable pub common_field : ℕ → Common → TType → ℤ → M B Common
  common_field fuel s t id =
      if eqb_ℤ id (pos 1)
      then typed p t_struct
          (read_user p fuel (s.user_data) >>= λ v.
            return (record s { user_data = v; isset_user_data = true }))
          s t
      else unknown_field p s t

  -- `Common::read` into an object that holds `old`
  unfoldable pub read_common : ℕ → Common → M B Common
  unfolding common_field
  read_common fuel old = read_struct p (common_field fuel) return fuel old

  -- `Common::write`
  unfoldable pub write_common : Common → List B
  write_common x =
      write_struct p "Common"
        (put_field p "user_data" t_struct (pos 1) (write_user p x.user_data) ∷ [])
