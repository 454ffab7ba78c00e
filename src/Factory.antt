-- ===== src/Factory.antt =====
-- src/logic/gtest/factory.cpp and include/logic/gtest/factory.hpp: the objects of the test programs by
-- name. A map lists its entries, each name once; `construct` runs a constructor.
pub mod Registry
use Prim.Native.String.{String, ◌++◌}
use text.Mathlib.Text.{◌==◌}
use logic.Base.{Bool, Option, none, some, List, [], ◌∷◌, ◌⊎◌, inl, inr, if◌then◌else◌}

unfoldable pub same_name : String → String → Bool
same_name name key = name == key

module _ {ℓ} {A : Type ℓ} where
  unfoldable pub find : String → List (String × A) → Option A
  find name [] = none
  find name ((key, item) ∷ rest) =
      let other = find name rest in if same_name name key then some item else other

  -- `map[name] = item`
  unfoldable pub insert : String → A → List (String × A) → List (String × A)
  insert name item [] = (name, item) ∷ []
  insert name item ((key, old) ∷ rest) =
      let others = insert name item rest in
      if same_name name key then (key, item) ∷ rest else (key, old) ∷ others

pub record Factory {ℓ m} (C : Type ℓ) (O : Type m) : Type (ℓ ⊔ m) where
  pub m_constructors : List (String × C)
  pub m_objects : List (String × O)

-- The text of a `std::runtime_error`.
abbrev pub already_exists : String → String
already_exists name = "logic::gtest::factory::add(): " ++ name ++ " object already exist in factory"

abbrev pub missing : String → String
missing name = "logic::gtest::factory::get(): " ++ name ++ " object doesn't exist in factory"

unfoldable pub found_object {m} : {O : Type m} → Option O → String → String ⊎ O
found_object none name = inl (missing name)
found_object (some item) name = inr item

module _ {ℓ m} {C : Type ℓ} {O : Type m} where
  abbrev pub new_factory : Factory C O
  new_factory = record { m_constructors = []; m_objects = [] }

  -- The branch on what `find` gave.
  unfoldable pub add_unless : Option C → String → C → Factory C O → String ⊎ Factory C O
  add_unless none name create_object f =
      inr (record f { m_constructors = insert name create_object f.m_constructors })
  add_unless (some old) name create_object f = inl (already_exists name)

  unfoldable pub add_object : String → C → Factory C O → String ⊎ Factory C O
  add_object name create_object f = add_unless (find name f.m_constructors) name create_object f

  unfoldable pub get_object : String → Factory C O → String ⊎ O
  get_object name f = found_object (find name f.m_objects) name

  -- The loop of `create`.
  unfoldable pub construct_all : (C → O) → List (String × C) → List (String × O) → List (String × O)
  construct_all construct [] objects = objects
  construct_all construct ((name, create_object) ∷ rest) objects =
      construct_all construct rest (insert name (construct create_object) objects)

  unfoldable pub create : (C → O) → Factory C O → Factory C O
  create construct f = record f { m_objects = construct_all construct f.m_constructors f.m_objects }

  unfoldable pub destroy : Factory C O → Factory C O
  destroy f = record f { m_objects = [] }
