-- ===== src/ContextData/AnyOrder.antt =====
-- `UserData::read` on fields in any order, repeated, missing or unknown (access_control/gen-cpp/
-- data_define_template_types.cpp).
pub mod Entries
use dag_executor.Common.{
  ℕ, suc, ◌≡◌, refl, Bool, true, false, ◌&&◌, ◌||◌, if◌then◌else◌, Option, none, some, List, [],
  ◌∷◌, ◌++◌, map,
}
use dag_executor.Common.Int.{ℤ, pos, eqb_ℤ}
use dag_executor.Util.{Text}
use dag_executor.Wire.Result.{ok, err, invalid_data}
use dag_executor.Wire.Protocol.{TType, t_stop, t_i32, t_string, same_type, Protocol, IsI32}
use dag_executor.Wire.Struct.{
  put_field, put_fields, write_struct, read_fields, read_struct, required,
}
use dag_executor.Wire.Reads.{
  Reads, Laws, Reads-return, Reads-map, Reads-stop, Reads-round, Reads-struct,
}
use dag_executor.Wire.Throws.{Throws-struct, Throws-throw}
use dag_executor.ContextData.User.{UserData, UserDataRead, user_field, read_user}
use dag_executor.ContextData.AnyOrder.Entries.{
  Entry, all_set, blank, combined, complete, above, state, put_entry, FitsEntry, FitsEntries,
}

module _ {B D : Type 0} (p : Protocol B D) (laws : Laws p) where
  entry-Reads :
      (s : UserDataRead) (e : Entry B) (es : List (Entry B)) (fuel : ℕ) (fields : List (List B))
      (final : UserDataRead)
      → FitsEntry p e
      → Reads (read_fields p (user_field p) fuel (state s (e ∷ []))) (put_fields p fields) final
      → Reads
          (read_fields p (user_field p) (suc fuel) s)
          (put_fields p (put_entry p e ∷ fields))
          final
  unfolding user_field
  entry-Reads s (Entry.name t) es fuel fields final h r =
      Reads-round laws (user_field p) _ _ _ refl (Reads-map _ (laws.string t)) r
  entry-Reads s (Entry.age z) es fuel fields final h r =
      Reads-round laws (user_field p) _ _ _ refl (Reads-map _ (laws.i32 z h)) r
  entry-Reads s (Entry.sex t) es fuel fields final h r =
      Reads-round laws (user_field p) _ _ _ refl (Reads-map _ (laws.string t)) r
  entry-Reads s (Entry.location t) es fuel fields final h r =
      Reads-round laws (user_field p) _ _ _ refl (Reads-map _ (laws.string t)) r
  entry-Reads s (Entry.device_id z) es fuel fields final h r =
      Reads-round laws (user_field p) _ _ _ refl (Reads-map _ (laws.i32 z h)) r
  entry-Reads s (Entry.other t id value) es fuel fields final h r =
      Reads-round laws (user_field p) _ _ _ (h.0) skipped r
    where
      skipped : Reads (user_field p s t id) value s
      skipped = rw (h.1, h.2, h.3, h.4, h.5) (Reads-map (λ u. s) (h.6))

  entries-Reads :
      (s : UserDataRead) (es : List (Entry B)) (fuel : ℕ)
      → FitsEntries p es
      → Reads
          (read_fields p (user_field p) (above es fuel) s)
          (put_fields p (map (put_entry p) es))
          (state s es)
  entries-Reads s [] fuel h = Reads-stop laws (user_field p) fuel s
  entries-Reads s (e ∷ es) fuel h =
      entry-Reads s e es (above es fuel) (map (put_entry p) es) _ (h.0)
        (entries-Reads (state s (e ∷ [])) es fuel (h.1))

  check_lem :
      (set : Bool) (s start : UserDataRead) (fuel : ℕ) (fields : List (List B)) (rest : List B)
      → Reads (read_fields p (user_field p) fuel start) (put_fields p fields) s
      → all_set s ≡ set
      → read_struct p
          (user_field p)
          (λ s. required (all_set s) (s.object))
          fuel
          start
          (write_struct p "UserData" fields ++ rest)
        ≡ (if set then ok (s.object, rest) else err invalid_data)
  check_lem true s start fuel fields rest r e =
      (Reads-struct laws (user_field p) (λ s. required (all_set s) (s.object)) fuel start _ fields r
          (rw e (Reads-return s.object))).run
        rest
  check_lem false s start fuel fields rest r e =
      (Throws-struct laws (user_field p) (λ s. required (all_set s) (s.object)) fuel start _ fields
          r (rw e (Throws-throw invalid_data))).run
        rest

module _ {B D : Type 0} (p : Protocol B D) (laws : Laws p) where
  -- `UserData::read` takes the fields of a written structure in any order, any number of times and
  -- with fields of other numbers between them, which it skips: of each field the last value
  -- counts, a field that does not occur keeps the reading object's value, and `device_id` is marked
  -- as set if it occurs or was. If one of the four required fields does not occur, it throws
  -- INVALID_DATA. The numbers are within their types, the protocol skips the values of the other
  -- fields, and the loop has more rounds than there are fields.
  pub read_user-entries :
      (es : List (Entry B)) (old : UserData) (fuel : ℕ) (rest : List B)
      → FitsEntries p es
      → read_user p (above es fuel) old (write_struct p "UserData" (map (put_entry p) es) ++ rest)
        ≡ (if complete es then ok (combined old es, rest) else err invalid_data)
  unfolding read_user
  read_user-entries es old fuel rest h =
      check_lem p laws (complete es) _ _ (above es fuel) (map (put_entry p) es) rest
        (entries-Reads p laws (blank old) es fuel h) refl
