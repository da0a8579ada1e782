-- ===== src/SizeClasses/Tests.antt =====
-- A small table of size classes: crates/starlight/src/gc/allocation.rs.
use js.Common.{ℕ, ◌≡◌, arith, refl, some, List, [], ◌∷◌}
use js.SizeClasses.{size_class_to_index, initialize_size_class_for_step_size}
use js.SizeClasses.Table.{IsAscending, done, next, class_for, build_size_class_table_lem}

abbrev classes : List ℕ
classes = 16 ∷ 32 ∷ 80 ∷ []

ascending : IsAscending 8 0 classes
unfolding size_class_to_index
ascending =
    next refl (omega arith) (omega arith)
      (next refl (omega arith) (omega arith) (next refl (omega arith) (omega arith) done))

build_size_class_table_lem_example :
    (t : ℕ → ℕ) × (initialize_size_class_for_step_size 8 classes (λ i. 0) ≡ some t)
    × (t 3 ≡ class_for classes 3)
build_size_class_table_lem_example =
    build_size_class_table_lem 8 classes (λ i. 0) 3 ascending (omega arith)
