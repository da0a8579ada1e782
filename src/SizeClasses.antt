-- ===== src/SizeClasses.antt =====
-- The sizes of cells: crates/starlight/src/gc/allocation.rs.
-- `payload` is BLOCK_PAYLOAD and `large_cutoff` is LARGE_CUTOFF, which the layout of `Block` decides; the
-- classes that `generate_size_classes` computes with floating-point numbers are a list. A table is a function, and
-- `none` is an index out of range.
pub mod Table
mod Tests
use js.Common.{ℕ, zero, suc, ◌+◌, ◌-◌, ◌*◌, ◌/◌, ◌%◌, Option, none, some, List, [], ◌∷◌}
use js.Common.{ltb, ◌==◌, if◌then◌else◌, ◌>>=◌}

abbrev pub size_step : ℕ
size_step = 16

unfoldable pub size_class_to_index : ℕ → ℕ
size_class_to_index size = (size + size_step - 1) / size_step

unfoldable pub index_to_size_class : ℕ → ℕ
index_to_size_class index = index * size_step

-- `x & !(SIZE_STEP - 1)`
abbrev pub round_down_to_step : ℕ → ℕ
round_down_to_step x = x / size_step * size_step

abbrev pub round_up_to_step : ℕ → ℕ
round_up_to_step x = round_down_to_step (x + (size_step - 1))

-- The class that the loop of `generate_size_classes` chooses for an approximate size.
unfoldable pub better_size_class : ℕ → ℕ → ℕ
better_size_class payload approximate =
    let size_class = round_up_to_step approximate in
    let cells_per_block = payload / size_class in
    let possibly_better_size_class = round_down_to_step (payload / cells_per_block) in
    let original_wastage = payload - cells_per_block * size_class in
    let new_wastage = (possibly_better_size_class - size_class) * cells_per_block in
    if ltb original_wastage new_wastage then size_class else possibly_better_size_class

-- `for i in next_index..=index { table[i] = entry; }`, with `n` indices left.
unfoldable pub fill_entries : ℕ → ℕ → ℕ → ℕ → (ℕ → ℕ) → Option (ℕ → ℕ)
fill_entries size zero i entry table = some table
fill_entries size (suc n) i entry table =
    let rest = fill_entries size n (i + 1) entry (λ j. if j == i then entry else table j) in
    if ltb i size then rest else none

-- The last loop of `build_size_class_table`.
unfoldable pub fill_defaults : ℕ → ℕ → (ℕ → ℕ) → (ℕ → ℕ) → (ℕ → ℕ)
fill_defaults zero i default_cons table = table
fill_defaults (suc n) i default_cons table =
    fill_defaults n (i + 1) default_cons
      (λ j. if j == i then default_cons (index_to_size_class i) else table j)

-- `build_size_class_table` from `next_index` on; `size` is NUM_SIZE_CLASSES.
unfoldable pub build_size_class_table :
    ℕ → (ℕ → ℕ) → (ℕ → ℕ) → List ℕ → ℕ → (ℕ → ℕ) → Option (ℕ → ℕ)
build_size_class_table size cons default_cons [] next_index table =
    some (fill_defaults (size - next_index) next_index default_cons table)
build_size_class_table size cons default_cons (sz ∷ classes) next_index table = do
  let index = size_class_to_index sz
  table' ← fill_entries size (index + 1 - next_index) next_index (cons sz) table
  build_size_class_table size cons default_cons classes (index + 1) table'

unfoldable pub initialize_size_class_for_step_size : ℕ → List ℕ → (ℕ → ℕ) → Option (ℕ → ℕ)
initialize_size_class_for_step_size size classes table =
    build_size_class_table size (λ sz. sz) (λ sz. sz) classes 0 table
