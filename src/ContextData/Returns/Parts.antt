-- ===== src/ContextData/Returns/Parts.antt =====
-- What the readers of the context's lists and maps return (access_control/gen-cpp/
-- data_define_template_types.cpp).
use dag_executor.Common.{List, [], ◌∷◌, All}
use dag_executor.Common.Int.{pos}
use dag_executor.Common.OrderedMap.{IsSorted-Follows}
use dag_executor.Wire.Protocol.{Protocol, IsI32, IsI64}
use dag_executor.Wire.Containers.{read_list, read_map}
use dag_executor.Wire.Gives.{Gives, Gives-imp, Gives-any, InRange}
use dag_executor.Wire.GivesAll.{Gives-list, Gives-map}
use dag_executor.ContextData.Orders.{text_order}
use dag_executor.ContextData.RoundTrip.Parts.{IsShort, FitsScores, FitsNumbers, FitsTexts, FitsInts}

abbrev pub Any {ℓ} : {A : Type ℓ} → A → Type 0
Any x = Unit

pub All-imp {ℓ κ μ} :
    {A : Type ℓ} {P : A → Type κ} {Q : A → Type μ} (xs : List A)
    → ((x : A) → P x → Q x)
    → All P xs
    → All Q xs
All-imp [] f h = tt
All-imp (x ∷ xs) f h = (f x (h.0), All-imp xs f (h.1))

module _ {ℓ} {B : Type ℓ} {D : Type 0} {p : Protocol B D} (range : InRange p) where
  pub Gives-texts : Gives (read_list p p.read_string) IsShort
  Gives-texts = Gives-imp (λ xs h. h.0) (Gives-list Any (Gives-any p.read_string) range)

  pub Gives-ints : Gives (read_list p p.read_i64) FitsInts
  Gives-ints = Gives-list IsI64 range.i64 range

  pub Gives-doubles : Gives (read_list p p.read_double) IsShort
  Gives-doubles = Gives-imp (λ xs h. h.0) (Gives-list Any (Gives-any p.read_double) range)

  pub Gives-scores :
      Gives (read_map p text_order p.read_string (λ v. read_list p p.read_double) []) FitsScores
  Gives-scores =
      Gives-imp (λ m h. (h.0, IsSorted-Follows text_order m (h.1), All-imp m (λ e q. q.1) (h.2)))
        (Gives-map text_order Any IsShort [] (Gives-any p.read_string) (λ v. Gives-doubles) range)

  pub Gives-numbers :
      Gives (read_map p text_order p.read_string (λ v. p.read_i32) (pos 0)) FitsNumbers
  Gives-numbers =
      Gives-imp (λ m h. (h.0, IsSorted-Follows text_order m (h.1), All-imp m (λ e q. q.1) (h.2)))
        (Gives-map text_order Any IsI32 (pos 0) (Gives-any p.read_string) (λ v. range.i32) range)

  pub Gives-text_map : Gives (read_map p text_order p.read_string (λ v. p.read_string) []) FitsTexts
  Gives-text_map =
      Gives-imp (λ m h. (h.0, IsSorted-Follows text_order m (h.1)))
        (Gives-map text_order Any Any [] (Gives-any p.read_string) (λ v. Gives-any p.read_string)
          range)
