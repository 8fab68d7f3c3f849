-- ===== src/DynamicFactory.antt =====
-- dynamic_factory/dynamic_factory2.h: a factory of constructors by name. `DynamicCreator` keeps a
-- reference to the parameter of its constructor, which is dead when `create` reads it, so its
-- `create` has no defined behaviour and no model. The deprecated dynamic_factory.h keeps the same
-- map in a static member.
pub mod Latest
mod Tests
use Prim.Native.String.{String}
use text.Mathlib.Text.{◌==◌}
use dag_executor.Common.{ℕ, Option, none, some, List, [], ◌∷◌, if◌then◌else◌}
use dag_executor.Common.Int.{ℤ}

-- `m_ctors_`: an `unordered_map` from names to constructors.
abbrev pub DynamicFactory {ℓ κ} : Type ℓ → Type κ → Type (ℓ ⊔ κ)
DynamicFactory Args Base = List (String × (Args → Base))

module _ {ℓ κ} {Args : Type ℓ} {Base : Type κ} where
  -- `DynamicFactory::register_`: `m_ctors_[name] = ctor`
  unfoldable pub register :
      DynamicFactory Args Base → String → (Args → Base) → DynamicFactory Args Base
  register [] name ctor = (name, ctor) ∷ []
  register ((key, old) ∷ m) name ctor =
      if key == name then (key, ctor) ∷ m else (key, old) ∷ register m name ctor

  -- What `m_ctors_` holds under a name.
  unfoldable pub find : DynamicFactory Args Base → String → Option (Args → Base)
  find [] name = none
  find ((key, ctor) ∷ m) name = if key == name then some ctor else find m name

-- The classes of the test case, with their fields.
pub data Test : Type 0 where
  test_66 test_666 : ℤ → ℤ → Test

-- `regist`
unfoldable pub regist : DynamicFactory (ℤ × ℤ) Test
unfolding register
regist =
    register (register [] "Test_66" (λ args. test_66 args.0 args.1)) "Test_666"
      λ args. test_666 args.0 args.1
