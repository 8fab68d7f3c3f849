-- ===== src/ContextData/RoundTrip/Parts.antt =====
-- Round trips of the lists and maps that the context's structures hold (access_control/gen-cpp/
-- data_define_template_types.cpp), and the bounds within which they hold.
use dag_executor.Common.{All, ℕ, suc, ◌<◌, ◌^◌, List, [], ◌∷◌, length}
use dag_executor.Common.Int.{ℤ, pos}
use dag_executor.Common.OrderedMap.{Map, Follows}
use dag_executor.Util.{Text}
use dag_executor.Wire.Protocol.{t_double, t_i32, t_i64, t_string, t_list, Protocol, IsI32, IsI64}
use dag_executor.Wire.Containers.{read_list, read_map, write_list, write_map}
use dag_executor.Wire.Reads.{Reads, Laws}
use dag_executor.Wire.ReadsAll.{Reads-list, Reads-map_entries}
use dag_executor.ContextData.Orders.{text_order}

-- The size of a list or of a map fits `uint32_t`.
abbrev pub IsShort {ℓ} : {A : Type ℓ} → List A → Type 0
IsShort xs = length xs < 2 ^ 32

-- Enough fuel for the loop of every structure: no one has more than five fields.
abbrev pub rounds : ℕ → ℕ
rounds fuel = suc (suc (suc (suc (suc (suc fuel)))))

abbrev Any {ℓ} : {A : Type ℓ} → A → Type 0
Any x = Unit

All-Any {ℓ} : {A : Type ℓ} (xs : List A) → All Any xs
All-Any [] = tt
All-Any (x ∷ xs) = (tt, All-Any xs)

-- A map with texts for keys and lists of numbers for values.
abbrev pub FitsScores : {D : Type 0} → Map Text (List D) → Type 0
FitsScores m = IsShort m × Follows text_order [] m × All (λ e. IsShort (e.1)) m

abbrev pub FitsNumbers : Map Text ℤ → Type 0
FitsNumbers m = IsShort m × Follows text_order [] m × All (λ e. IsI32 (e.1)) m

abbrev pub FitsTexts : Map Text Text → Type 0
FitsTexts m = IsShort m × Follows text_order [] m

abbrev pub FitsInts : List ℤ → Type 0
FitsInts xs = IsShort xs × All IsI64 xs

module _ {ℓ} {B : Type ℓ} {D : Type 0} {p : Protocol B D} (laws : Laws p) where
  pub Reads-texts :
      (xs : List Text)
      → IsShort xs
      → Reads (read_list p p.read_string) (write_list p t_string (λ x. p.write_string x) xs) xs
  Reads-texts xs h =
      Reads-list Any p.read_string (λ x. p.write_string x) (λ x _. laws.string x) laws t_string xs h
        (All-Any xs)

  pub Reads-ints :
      (xs : List ℤ)
      → FitsInts xs
      → Reads (read_list p p.read_i64) (write_list p t_i64 (λ x. p.write_i64 x) xs) xs
  Reads-ints xs h =
      Reads-list IsI64 p.read_i64 (λ x. p.write_i64 x) laws.i64 laws t_i64 xs (h.0) (h.1)

  pub Reads-doubles :
      (xs : List D)
      → IsShort xs
      → Reads (read_list p p.read_double) (write_list p t_double (λ x. p.write_double x) xs) xs
  Reads-doubles xs h =
      Reads-list Any p.read_double (λ x. p.write_double x) (λ x _. laws.double x) laws t_double xs h
        (All-Any xs)

  pub Reads-scores :
      (m : Map Text (List D))
      → FitsScores m
      → Reads
          (read_map p text_order p.read_string (λ _. read_list p p.read_double) [])
          (write_map p t_string t_list
            (λ x. p.write_string x)
            (λ x. write_list p t_double (λ x. p.write_double x) x)
            m)
          m
  Reads-scores m h =
      Reads-map_entries text_order (λ e. IsShort (e.1)) p.read_string _
        (λ _. read_list p p.read_double) _ [] (λ e _. laws.string (e.0))
        (λ e short. Reads-doubles (e.1) short) laws t_string t_list m (h.0) (h.1) (h.2)

  pub Reads-numbers :
      (m : Map Text ℤ)
      → FitsNumbers m
      → Reads
          (read_map p text_order p.read_string (λ _. p.read_i32) (pos 0))
          (write_map p t_string t_i32 (λ x. p.write_string x) (λ x. p.write_i32 x) m)
          m
  Reads-numbers m h =
      Reads-map_entries text_order (λ e. IsI32 (e.1)) p.read_string _ (λ _. p.read_i32) _ (pos 0)
        (λ e _. laws.string (e.0)) (λ e fits. laws.i32 (e.1) fits) laws t_string t_i32 m (h.0) (h.1)
        (h.2)

  pub Reads-text_map :
      (m : Map Text Text)
      → FitsTexts m
      → Reads
          (read_map p text_order p.read_string (λ _. p.read_string) [])
          (write_map p t_string t_string (λ x. p.write_string x) (λ x. p.write_string x) m)
          m
  Reads-text_map m h =
      Reads-map_entries text_order Any p.read_string _ (λ _. p.read_string) _ []
        (λ e _. laws.string (e.0)) (λ e _. laws.string (e.1)) laws t_string t_string m (h.0) (h.1)
        (All-Any m)
