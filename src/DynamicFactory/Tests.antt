-- ===== src/DynamicFactory/Tests.antt =====
-- A factory with two classes (dynamic_factory/dynamic_factory2.h).
use Prim.Native.String.{String}
use dag_executor.Common.{◌≡◌, none, List, [], ◌∷◌}
use dag_executor.Common.Int.{ℤ}
use dag_executor.DynamicFactory.{Test, test_66, test_666, find}
use dag_executor.DynamicFactory.Latest.{register_all, latest, find-register_all}

abbrev classes : List (String × (ℤ × ℤ → Test))
classes =
    ("Test_66", λ args. test_66 args.0 args.1) ∷ ("Test_666", λ args. test_666 args.0 args.1) ∷ []

find-register_all_example :
    find (register_all [] classes) "Test_666" ≡ latest none "Test_666" classes
find-register_all_example = find-register_all classes "Test_666"
