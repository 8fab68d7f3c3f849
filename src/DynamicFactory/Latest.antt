-- ===== src/DynamicFactory/Latest.antt =====
-- The factory's map after any registrations (dynamic_factory/dynamic_factory2.h).
use Prim.Native.String.{String}
use text.Mathlib.Text.{◌==◌}
use text.Mathlib.TextEquality.{eq_iff}
use dag_executor.Common.{◌≡◌, refl, Option, none, some, List, [], ◌∷◌, arith, if◌then◌else◌}
use dag_executor.DynamicFactory.{DynamicFactory, register, find}

module _ {ℓ κ} {Args : Type ℓ} {Base : Type κ} where
  -- `register_` for each pair of a list, in order.
  pub register_all :
      DynamicFactory Args Base → List (String × (Args → Base)) → DynamicFactory Args Base
  register_all m [] = m
  register_all m ((name, ctor) ∷ calls) = register_all (register m name ctor) calls

  -- The constructor that the last call for `name` gave, or else `before`.
  pub latest : Option (Args → Base) → String → List (String × (Args → Base)) → Option (Args → Base)
  latest before name [] = before
  latest before name ((key, ctor) ∷ calls) =
      latest (if key == name then some ctor else before) name calls

  find-register :
      (m : DynamicFactory Args Base) (key name : String) (ctor : Args → Base)
      → find (register m key ctor) name ≡ (if key == name then some ctor else find m name)
  unfolding find register
  find-register [] key name ctor = refl
  find-register ((k, old) ∷ m) key name ctor =
      ground (arith, eq_iff k key, eq_iff key name, eq_iff k name, find-register m key name ctor)

  find-onto :
      (m : DynamicFactory Args Base) (calls : List (String × (Args → Base))) (name : String)
      → find (register_all m calls) name ≡ latest (find m name) name calls
  unfolding register_all latest
  find-onto m [] name = refl
  find-onto m ((key, ctor) ∷ calls) name =
      rw (find-onto (register m key ctor) calls name, find-register m key name ctor)

  -- After any sequence of `register_` calls on an empty factory, in any order and with any names
  -- registered again, its map holds under a name the constructor that the last call for the name
  -- gave, and nothing under a name that was never registered.
  pub find-register_all :
      (calls : List (String × (Args → Base))) (name : String)
      → find (register_all [] calls) name ≡ latest none name calls
  unfolding find
  find-register_all calls name = find-onto [] calls name
