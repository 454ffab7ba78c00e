-- ===== src/Tests/Registered.antt =====
-- Two test objects in the factory of src/logic/gtest/factory.cpp.
use Prim.Native.String.{String}
use logic.Base.{ℕ, suc, some, List, [], ◌∷◌, ◌≡◌, refl, inl, inr}
use logic.Factory.{Factory, same_name, find, missing, get_object, create, destroy}
use logic.Factory.Registry.{IsMap, no_entry, entry, add_all, answer, registered_objects}

abbrev registered : List (String × ℕ)
registered = ("reset", 4) ∷ ("basic", 7) ∷ []

registered-IsMap : IsMap registered
unfolding find same_name
registered-IsMap = entry refl (entry refl no_entry)

basic_found : find "basic" registered ≡ some 7
unfolding find same_name
basic_found = refl

registered_objects_example :
    (f : Factory ℕ ℕ) × (add_all registered ≡ inr f)
    × (get_object "basic" (create suc f) ≡ answer suc "basic" (find "basic" registered))
    × (get_object "basic" (destroy (create suc f)) ≡ inl (missing "basic"))
registered_objects_example = registered_objects suc "basic" registered registered-IsMap
