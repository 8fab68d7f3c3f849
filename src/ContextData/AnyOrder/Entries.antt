-- ===== src/ContextData/AnyOrder/Entries.antt =====
-- Fields of a `UserData` as they may be written, and the object that they make up (access_control/
-- gen-cpp/data_define_template_types.cpp).
use dag_executor.Common.{
  ℕ, suc, ◌≡◌, Bool, true, false, ◌&&◌, ◌||◌, Option, none, some, List, [], ◌∷◌,
}
use dag_executor.Common.Int.{ℤ, pos, eqb_ℤ}
use dag_executor.Util.{Text}
use dag_executor.Wire.Protocol.{TType, t_stop, t_i32, t_string, same_type, Protocol, IsI32}
use dag_executor.Wire.Struct.{put_field}
use dag_executor.Wire.Reads.{Reads}
use dag_executor.ContextData.User.{UserData, UserDataRead}

-- A field as another program may write it: one of the five, or one of another number.
pub data Entry (B : Type 0) : Type 0 where
  name : Text → Entry B
  age : ℤ → Entry B
  sex : Text → Entry B
  location : Text → Entry B
  device_id : ℤ → Entry B
  other : TType → ℤ → List B → Entry B

abbrev pub or_else {κ} : {A : Type κ} → Option A → A → A
or_else none a = a
or_else (some b) a = b

abbrev pub is_some {κ} : {A : Type κ} → Option A → Bool
is_some none = false
is_some (some b) = true

abbrev pub all_set : UserDataRead → Bool
all_set s = s.isset_name && s.isset_age && s.isset_sex && s.isset_location

abbrev pub blank : UserData → UserDataRead
blank old = record {
  object = old;
  isset_name = false;
  isset_age = false;
  isset_sex = false;
  isset_location = false;
}

module _ {B : Type 0} where
  abbrev pub name_of : Entry B → Option Text
  name_of (Entry.name t) = some t
  name_of _ = none

  abbrev pub age_of : Entry B → Option ℤ
  age_of (Entry.age z) = some z
  age_of _ = none

  abbrev pub sex_of : Entry B → Option Text
  sex_of (Entry.sex t) = some t
  sex_of _ = none

  abbrev pub location_of : Entry B → Option Text
  location_of (Entry.location t) = some t
  location_of _ = none

  abbrev pub device_id_of : Entry B → Option ℤ
  device_id_of (Entry.device_id z) = some z
  device_id_of _ = none

  -- The last value of a field, and whether it occurs.
  abbrev pub latest {κ} : {A : Type κ} → (Entry B → Option A) → A → List (Entry B) → A
  latest f a [] = a
  latest f a (e ∷ es) = latest f (or_else (f e) a) es

  abbrev pub occurs {κ} : {A : Type κ} → (Entry B → Option A) → Bool → List (Entry B) → Bool
  occurs f b [] = b
  occurs f b (e ∷ es) = occurs f (is_some (f e) || b) es

  -- The object: of each field the last value, and the old one if there is none.
  abbrev pub combined : UserData → List (Entry B) → UserData
  combined old es = record {
    name = latest name_of old.name es;
    age = latest age_of old.age es;
    sex = latest sex_of old.sex es;
    location = latest location_of old.location es;
    device_id = latest device_id_of old.device_id es;
    isset_device_id = occurs device_id_of old.isset_device_id es;
  }

  -- The required fields, all but `device_id`, occur.
  abbrev pub complete : List (Entry B) → Bool
  complete es =
      occurs name_of false es
      && occurs age_of false es
      && occurs sex_of false es
      && occurs location_of false es

  -- More rounds than entries.
  abbrev pub above : List (Entry B) → ℕ → ℕ
  above [] fuel = suc fuel
  above (e ∷ es) fuel = suc (above es fuel)

  abbrev pub state : UserDataRead → List (Entry B) → UserDataRead
  state s es = record {
    object = combined s.object es;
    isset_name = occurs name_of s.isset_name es;
    isset_age = occurs age_of s.isset_age es;
    isset_sex = occurs sex_of s.isset_sex es;
    isset_location = occurs location_of s.isset_location es;
  }

  module _ {D : Type 0} (p : Protocol B D) where
    abbrev pub put_entry : Entry B → List B
    put_entry (Entry.name t) = put_field p "name" t_string (pos 1) (p.write_string t)
    put_entry (Entry.age z) = put_field p "age" t_i32 (pos 2) (p.write_i32 z)
    put_entry (Entry.sex t) = put_field p "sex" t_string (pos 3) (p.write_string t)
    put_entry (Entry.location t) = put_field p "location" t_string (pos 4) (p.write_string t)
    put_entry (Entry.device_id z) = put_field p "device_id" t_i32 (pos 5) (p.write_i32 z)
    put_entry (Entry.other t id value) = put_field p "other" t id value

    abbrev pub FitsEntry : Entry B → Type 0
    FitsEntry (Entry.age z) = IsI32 z
    FitsEntry (Entry.device_id z) = IsI32 z
    FitsEntry (Entry.other t id value) =
        (same_type t t_stop ≡ false)
        × (eqb_ℤ id (pos 1) ≡ false)
        × (eqb_ℤ id (pos 2) ≡ false)
        × (eqb_ℤ id (pos 3) ≡ false)
        × (eqb_ℤ id (pos 4) ≡ false)
        × (eqb_ℤ id (pos 5) ≡ false)
        × Reads (p.skip t) value tt
    FitsEntry _ = Unit

    abbrev pub FitsEntries : List (Entry B) → Type 0
    FitsEntries [] = Unit
    FitsEntries (e ∷ es) = FitsEntry e × FitsEntries es
