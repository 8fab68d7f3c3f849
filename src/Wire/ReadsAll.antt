-- ===== src/Wire/ReadsAll.antt =====
-- Round trips of lists and maps (access_control/gen-cpp/data_define_template_types.cpp).
use mathlib.Core.List.{append_assoc, append-nil}
use dag_executor.Common.{◌<◌, ◌%◌, ◌^◌, ◌≡◌, arith, List, [], ◌∷◌, ◌++◌, length, All}
use dag_executor.Common.OrderedMap.{Order, Map, put, find_or, Follows, put_last, find_or-new}
use dag_executor.Wire.Result.{M}
use dag_executor.Wire.Protocol.{TType, Protocol}
use dag_executor.Wire.Reads.{Reads, Reads-return, Reads-bind, Reads-map, Laws}
use dag_executor.Wire.Containers.{
  read_times, read_entries, write_all, read_list, read_map, write_list, write_map,
}

module _ {ℓ κ μ} {B : Type ℓ} {A : Type κ} (P : A → Type μ) (read : M B A) (write : A → List B)
    (good : (x : A) → P x → Reads read (write x) x) where
  Reads-times :
      (xs : List A) → All P xs → Reads (read_times read (length xs)) (write_all write xs) xs
  unfolding read_times write_all
  Reads-times [] h = Reads-return []
  Reads-times (x ∷ xs) h =
      Reads-bind _ (good x (h.0)) (Reads-map (λ ys. x ∷ ys) (Reads-times xs (h.1)))

  pub Reads-list :
      {D : Type 0} {p : Protocol B D} (laws : Laws p) (t : TType) (xs : List A)
      → length xs < 2 ^ 32
      → All P xs
      → Reads (read_list p read) (write_list p t write xs) xs
  unfolding read_list write_list
  Reads-list {p = p} laws t xs short h = rw fits (
      Reads-bind _ (laws.list_begin t (length xs) short)
        (Reads-bind _ (Reads-times xs h) (Reads-map (λ _. xs) laws.list_end)))
    where
      fits : length xs % 2 ^ 32 ≡ length xs
      fits = omega arith

module _ {ℓ κ μ ν} {B : Type ℓ} {K : Type κ} {V : Type μ} (o : Order K) (P : K × V → Type ν)
    (key : M B K) (write_key : K → List B) (value : V → M B V) (write_value : V → List B)
    (default : V) (good_key : (e : K × V) → P e → Reads key (write_key (e.0)) (e.0))
    (good_value : (e : K × V) → P e → Reads (value default) (write_value (e.1)) (e.1)) where
  abbrev write_entry : K × V → List B
  write_entry e = write_key (e.0) ++ write_value (e.1)

  Reads-entries :
      (before m : Map K V)
      → Follows o before m
      → All P m
      → Reads
          (read_entries o key value default (length m) before)
          (write_all write_entry m)
          (before ++ m)
  unfolding read_entries write_all
  Reads-entries before [] asc h = rw (append-nil before) (Reads-return before)
  Reads-entries before ((k, v) ∷ m) asc h =
      rw (append_assoc (write_key k) (write_value v) (write_all write_entry m)) (
        Reads-bind _ (good_key (k, v) (h.0))
          (Reads-bind _ found (later (Reads-entries (before ++ (k, v) ∷ []) m (asc.1) (h.1)))))
    where
      found : Reads (value (find_or o default k before)) (write_value v) v
      found = rw (find_or-new o default k before (asc.0)) (good_value (k, v) (h.0))

      later :
          Reads
            (read_entries o key value default (length m) (before ++ (k, v) ∷ []))
            (write_all write_entry m)
            ((before ++ (k, v) ∷ []) ++ m)
          → Reads
              (read_entries o key value default (length m) (put o k v before))
              (write_all write_entry m)
              (before ++ (k, v) ∷ m)
      later r = rw (put_last o k v before (asc.0)) (rw (append_assoc before ((k, v) ∷ []) m) at r)

  pub Reads-map_entries :
      {D : Type 0} {p : Protocol B D} (laws : Laws p) (kt vt : TType) (m : Map K V)
      → length m < 2 ^ 32
      → Follows o [] m
      → All P m
      → Reads (read_map p o key value default) (write_map p kt vt write_key write_value m) m
  unfolding read_map write_map
  Reads-map_entries {p = p} laws kt vt m short asc h = rw fits (
      Reads-bind _ (laws.map_begin kt vt (length m) short)
        (Reads-bind _ (Reads-entries [] m asc h) (Reads-map (λ _. m) laws.map_end)))
    where
      fits : length m % 2 ^ 32 ≡ length m
      fits = omega arith
