-- ===== src/Wire/Reads.antt =====
-- Round trips: a reader that takes from the bytes just what was written, whatever follows.
use Prim.Native.String.{String}
use mathlib.Core.List.{append_assoc, append-nil}
use dag_executor.Common.{ℕ, suc, ◌<◌, ◌^◌, Bool, List, [], ◌∷◌, ◌++◌, ◌≡◌, refl, sym, ◌∙◌, false}
use dag_executor.Common.Int.{ℤ, pos}
use dag_executor.Util.{Text}
use dag_executor.Wire.Result.{ok, M, return, ◌>>=◌, ◌>>◌}
use dag_executor.Wire.Protocol.{
  TType, t_stop, same_type, Protocol, MessageType, IsI16, IsI32, IsI64,
}
use dag_executor.Wire.Struct.{read_fields, read_struct, put_field, put_fields, write_struct}

pub record Reads {ℓ κ} {B : Type ℓ} {A : Type κ} (m : M B A) (written : List B) (a : A)
    : Type (ℓ ⊔ κ) where
  pub run : (rest : List B) → m (written ++ rest) ≡ ok (a, rest)

module _ {ℓ κ} {B : Type ℓ} {A : Type κ} where
  pub Reads-return : (a : A) → Reads {B = B} (return a) [] a
  Reads-return a = record { run = λ rest. refl }

  pub Reads-bind {μ} :
      {C : Type μ} {m : M B A} {v w : List B} {a : A} {c : C} (f : A → M B C)
      → Reads m v a
      → Reads (f a) w c
      → Reads (m >>= f) (v ++ w) c
  Reads-bind {v = v} {w} f r q = record {
    run = λ rest. rw (append_assoc v w rest, r.run (w ++ rest), ◌>>=◌) (q.run rest);
  }

  -- The last reader of a chain.
  pub Reads-map {μ} :
      {C : Type μ} {m : M B A} {v : List B} {a : A} (f : A → C)
      → Reads m v a
      → Reads (m >>= λ x. return (f x)) v (f a)
  Reads-map f r = record { run = λ rest. rw (r.run rest, ◌>>=◌) refl }

-- The last reader of a chain that reads any bytes.
module _ {ℓ κ μ} {B : Type ℓ} {A : Type κ} {C : Type μ} {m : M B A} {v : List B} {a : A} {c : C}
    (f : A → M B C) where
  pub Reads-last : Reads m v a → Reads (f a) [] c → Reads (m >>= f) v c
  Reads-last r q = rw (append-nil v) at (Reads-bind f r q)

-- The same reader, and the same bytes grouped otherwise.
module _ {ℓ κ} {B : Type ℓ} {A : Type κ} {m : M B A} {a : A} where
  pub Reads-of :
      {n : M B A} {w : List B} → ((bytes : List B) → n bytes ≡ m bytes) → Reads m w a → Reads n w a
  Reads-of {w = w} e r = record { run = λ rest. e (w ++ rest) ∙ r.run rest }

  pub Reads-assoc : (u v w : List B) → Reads m (u ++ (v ++ w)) a → Reads m ((u ++ v) ++ w) a
  Reads-assoc u v w r = rw (sym (append_assoc u v w)) at r

  pub Reads-regroup :
      (u v w x : List B) → Reads m (u ++ (v ++ (w ++ x))) a → Reads m ((u ++ (v ++ w)) ++ x) a
  Reads-regroup u v w x r = record {
    run = λ rest. simp (append_assoc) (simp (append_assoc) at (r.run rest));
  }

-- What the protocol writes it reads back, within the range of the C++ type, and it skips a value
-- of any type that it has written.
pub record Laws {ℓ} {B : Type ℓ} {D : Type 0} (p : Protocol B D) : Type ℓ where
  pub struct_begin : (name : String) → Reads p.read_struct_begin (p.write_struct_begin name) tt
  pub struct_end : Reads p.read_struct_end p.write_struct_end tt
  pub field_begin :
      (name : String) (t : TType) (id : ℤ)
      → Reads p.read_field_begin (p.write_field_begin name t id) (t, id)
  pub field_end : Reads p.read_field_end p.write_field_end tt
  pub field_stop : Reads p.read_field_begin p.write_field_stop (t_stop, pos 0)
  pub list_begin :
      (t : TType) (n : ℕ) → n < 2 ^ 32 → Reads p.read_list_begin (p.write_list_begin t n) (t, n)
  pub list_end : Reads p.read_list_end p.write_list_end tt
  pub map_begin :
      (k v : TType) (n : ℕ)
      → n < 2 ^ 32
      → Reads p.read_map_begin (p.write_map_begin k v n) (k, v, n)
  pub map_end : Reads p.read_map_end p.write_map_end tt
  pub message_begin :
      (name : Text) (t : MessageType) (id : ℤ)
      → IsI32 id
      → Reads p.read_message_begin (p.write_message_begin name t id) (name, t, id)
  pub message_end : Reads p.read_message_end p.write_message_end tt
  pub bool : (b : Bool) → Reads p.read_bool (p.write_bool b) b
  pub i16 : (z : ℤ) → IsI16 z → Reads p.read_i16 (p.write_i16 z) z
  pub i32 : (z : ℤ) → IsI32 z → Reads p.read_i32 (p.write_i32 z) z
  pub i64 : (z : ℤ) → IsI64 z → Reads p.read_i64 (p.write_i64 z) z
  pub double : (d : D) → Reads p.read_double (p.write_double d) d
  pub string : (t : Text) → Reads p.read_string (p.write_string t) t

module _ {ℓ κ} {B : Type ℓ} {D : Type 0} {S : Type κ} {p : Protocol B D} (laws : Laws p)
    (field : S → TType → ℤ → M B S) where
  -- The last round of the loop.
  pub Reads-stop : (fuel : ℕ) (s : S) → Reads (read_fields p field (suc fuel) s) (put_fields p []) s
  unfolding read_fields put_fields
  Reads-stop fuel s = record { run = λ rest. rw (laws.field_stop.run rest, ◌>>=◌) refl }

  -- A round over a written field.
  pub Reads-round :
      {s next final : S} {t : TType} {id : ℤ} {value : List B} (name : String)
      (fields : List (List B)) (fuel : ℕ)
      → same_type t t_stop ≡ false
      → Reads (field s t id) value next
      → Reads (read_fields p field fuel next) (put_fields p fields) final
      → Reads
          (read_fields p field (suc fuel) s)
          (put_fields p (put_field p name t id value ∷ fields))
          final
  unfolding read_fields put_field put_fields
  Reads-round {s} {next} {final} {t} {id} {value} name fields fuel typed r q =
      Reads-regroup (p.write_field_begin name t id) value p.write_field_end (put_fields p fields)
        (Reads-bind _ (laws.field_begin name t id) (rw typed inner))
    where
      inner :
          Reads
            (field s t id >>= λ next. p.read_field_end >> read_fields p field fuel next)
            (value ++ (p.write_field_end ++ put_fields p fields))
            final
      inner = Reads-bind _ r (Reads-bind _ laws.field_end q)

  -- A whole structure.
  pub Reads-struct {μ} :
      {A : Type μ} {s : S} {a : A} (check : S → M B A) (fuel : ℕ) (start : S) (name : String)
      (fields : List (List B))
      → Reads (read_fields p field fuel start) (put_fields p fields) s
      → Reads (check s) [] a
      → Reads (read_struct p field check fuel start) (write_struct p name fields) a
  unfolding read_struct write_struct
  Reads-struct {s = s} {a} check fuel start name fields r q =
      Reads-bind _ (laws.struct_begin name)
        (Reads-bind _ r (Reads-last (λ _. check s) laws.struct_end q))
