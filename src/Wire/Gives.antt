-- ===== src/Wire/Gives.antt =====
-- What a reader returns, on any bytes: a property of its values.
use dag_executor.Common.{
  ℕ, zero, suc, ◌<◌, ◌^◌, ◌≡◌, refl, Bool, true, false, List, arith, if◌then◌else◌,
}
use dag_executor.Common.Int.{ℤ, eqb_ℤ}
use dag_executor.Wire.Result.{Result, ok, err, stuck, M, return, ◌>>=◌}
use dag_executor.Wire.Protocol.{TType, t_stop, same_type, Protocol, IsI16, IsI32, IsI64}
use dag_executor.Wire.Struct.{typed, unknown_field, read_fields, read_struct, required}

abbrev pub On {ℓ κ μ} : {B : Type ℓ} {A : Type κ} → (A → Type μ) → Result (A × List B) → Type μ
On P (ok (a, rest)) = P a
On P (err e) = Unit
On P stuck = Unit

pub record Gives {ℓ κ μ} {B : Type ℓ} {A : Type κ} (m : M B A) (P : A → Type μ) : Type (ℓ ⊔ μ) where
  pub run : (bytes : List B) → On P (m bytes)

module _ {ℓ κ μ} {B : Type ℓ} {A : Type κ} {P : A → Type μ} where
  pub Gives-return : (a : A) → P a → Gives {B = B} (return a) P
  Gives-return a h = record { run = λ bytes. h }

  pub Gives-if :
      {m k : M B A} (b : Bool)
      → (b ≡ true → Gives m P)
      → (b ≡ false → Gives k P)
      → Gives (if b then m else k) P
  Gives-if true g h = g refl
  Gives-if false g h = h refl

  -- A value that came out has the property.
  pub Gives-ok :
      {m : M B A} (a : A) (bytes rest : List B) → Gives m P → m bytes ≡ ok (a, rest) → P a
  Gives-ok {m} a bytes rest g e = go (m bytes) e (g.run bytes)
    where
      go : (r : Result (A × List B)) → r ≡ ok (a, rest) → On P r → P a
      go (ok (b, rest')) e h = ground (arith)
      go (err x) e h = cc
      go stuck e h = cc

module _ {ℓ κ μ ν ρ} {B : Type ℓ} {A : Type κ} {C : Type μ} {P : A → Type ν} {Q : C → Type ρ} where
  bind-On :
      (r : Result (A × List B)) (f : A → M B C)
      → On P r
      → ((a : A) → P a → Gives (f a) Q)
      → On Q (elim r [ ok (a, rest) ↦ f a rest | err e ↦ err e | stuck ↦ stuck ])
  bind-On (ok (a, rest)) f h g = (g a h).run rest
  bind-On (err e) f h g = tt
  bind-On stuck f h g = tt

  pub Gives-bind :
      {m : M B A} {f : A → M B C} → Gives m P → ((a : A) → P a → Gives (f a) Q) → Gives (m >>= f) Q
  Gives-bind {m} {f} g h = record { run = λ bytes. bind-On (m bytes) f (g.run bytes) h }

pub Gives-imp {ℓ κ μ ν} :
    {B : Type ℓ} {A : Type κ} {P : A → Type μ} {Q : A → Type ν} {m : M B A}
    → ((a : A) → P a → Q a)
    → Gives m P
    → Gives m Q
Gives-imp {B = B} {A} {P} {Q} {m} f g = record { run = λ bytes. go (m bytes) (g.run bytes) }
  where
    go : (r : Result (A × List B)) → On P r → On Q r
    go (ok (a, rest)) h = f a h
    go (err e) h = tt
    go stuck h = tt

-- Nothing is asked of the value.
pub Gives-any {ℓ κ} : {B : Type ℓ} {A : Type κ} (m : M B A) → Gives m (λ a. Unit {0})
Gives-any {B = B} {A} m = record { run = λ bytes. go (m bytes) }
  where
    go : (r : Result (A × List B)) → On (λ a. Unit {0}) r
    go (ok (a, rest)) = tt
    go (err e) = tt
    go stuck = tt

pub Gives-required {ℓ κ μ} :
    {B : Type ℓ} {A : Type κ} {P : A → Type μ} (set : Bool) (a : A)
    → (set ≡ true → P a)
    → Gives {B = B} (required set a) P
Gives-required true a h = record { run = λ bytes. h refl }
Gives-required false a h = record { run = λ bytes. tt }

-- The ranges of the C++ types, `uint32_t` for sizes.
pub record InRange {ℓ} {B : Type ℓ} {D : Type 0} (p : Protocol B D) : Type ℓ where
  pub i16 : Gives p.read_i16 IsI16
  pub i32 : Gives p.read_i32 IsI32
  pub i64 : Gives p.read_i64 IsI64
  pub list_begin : Gives p.read_list_begin (λ h. h.1 < 2 ^ 32)
  pub map_begin : Gives p.read_map_begin (λ h. h.2 < 2 ^ 32)

module _ {ℓ κ μ} {B : Type ℓ} {D : Type 0} {S : Type κ} (p : Protocol B D) (I : S → Type μ) where
  pub Gives-unknown : (t : TType) (s : S) → I s → Gives (unknown_field p s t) I
  Gives-unknown t s h = Gives-bind (Gives-any (p.skip t)) (λ u _. Gives-return s h)

  -- A branch that stores a value, and the branches behind it.
  pub Gives-store {ν ρ} :
      {V : Type ν} {P : V → Type ρ} (id key : ℤ) (want t : TType) {read : M B V} (f : V → S)
      {m : M B S} (s : S)
      → I s
      → Gives read P
      → ((v : V) → P v → I (f v))
      → Gives m I
      → Gives (if eqb_ℤ id key then typed p want (read >>= λ v. return (f v)) s t else m) I
  Gives-store id key want t f s h g k r =
      Gives-if (eqb_ℤ id key)
        (λ e.
          Gives-if (same_type t want) (λ e. Gives-bind g (λ v q. Gives-return (f v) (k v q)))
            (λ e. Gives-unknown t s h))
        (λ e. r)

  -- What each branch of the switch keeps holds behind the loop.
  Gives-fields :
      (field : S → TType → ℤ → M B S) (fuel : ℕ) (s : S)
      → I s
      → ((s : S) (t : TType) (id : ℤ) → I s → Gives (field s t id) I)
      → Gives (read_fields p field fuel s) I
  unfolding read_fields
  Gives-fields field zero s h g = record { run = λ bytes. tt }
  Gives-fields field (suc fuel) s h g = Gives-bind (Gives-any p.read_field_begin) (λ a _.
      Gives-if (same_type (a.0) t_stop) (λ e. Gives-return s h)
        (λ e. Gives-bind (g s (a.0) (a.1) h) (λ next k.
          Gives-bind (Gives-any p.read_field_end) (λ u _. Gives-fields field fuel next k g))))

  pub Gives-struct {ν ρ} :
      {A : Type ν} {Q : A → Type ρ} (field : S → TType → ℤ → M B S) (check : S → M B A) (fuel : ℕ)
      (start : S)
      → I start
      → ((s : S) (t : TType) (id : ℤ) → I s → Gives (field s t id) I)
      → ((s : S) → I s → Gives (check s) Q)
      → Gives (read_struct p field check fuel start) Q
  unfolding read_struct
  Gives-struct field check fuel start h g c = Gives-bind (Gives-any p.read_struct_begin) (λ u _.
      Gives-bind (Gives-fields field fuel start h g)
        (λ s k. Gives-bind (Gives-any p.read_struct_end) (λ u _. c s k)))
