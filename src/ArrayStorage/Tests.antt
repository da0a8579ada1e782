-- ===== src/ArrayStorage/Tests.antt =====
-- Concrete arrays (crates/starlight/src/vm/array_storage.rs).
use js.Common.{◌+◌, ◌≡◌, arith, some, [], ◌∷◌, ◌++◌}
use js.ArrayStorage.Memory.{Memory}
use js.ArrayStorage.Defs.{ArrayStorage, push_back}
use js.ArrayStorage.Shift.{IsValid}
use js.ArrayStorage.Valid.{contents, push_back_lem}

-- What a new allocation holds.
abbrev junk : Memory
junk i = 99

-- The array [10, 11] in an allocation for two values, and in one for eight.
abbrev full : ArrayStorage
full = record { size = 2; capacity = 2; data_words = λ i. i + 10 }

abbrev roomy : ArrayStorage
roomy = record { size = 2; capacity = 8; data_words = λ i. i + 10 }

full-IsValid : IsValid full
full-IsValid = record { size_fits = omega arith; capacity_fits = omega arith }

roomy-IsValid : IsValid roomy
roomy-IsValid = record { size_fits = omega arith; capacity_fits = omega arith }

push_back_lem_example :
    (s' : ArrayStorage) × (push_back junk full 12 ≡ some s')
    × (contents s' ≡ contents full ++ (12 ∷ []))
    × IsValid s'
push_back_lem_example = push_back_lem junk full full-IsValid 12 (omega arith)
