-- ===== src/LargeObjects/Tests.antt =====
-- A large object at the address 8008: crates/starlight/src/gc/large_object_space.rs.
use js.Common.{◌+◌, ◌%◌, ◌≤◌, ◌≡◌, refl, arith, true, false, some, [], ◌∷◌}
use js.LargeObjects.{
  PreciseAllocation, LargeObjectSpace, sweep_large, try_create, cell_of, allocation_size,
  is_precise, from_cell, base_pointer,
}
use js.LargeObjects.Place.{try_create_lem}
use js.LargeObjects.Marks.{marked_ones, never_freed}

try_create_lem_example :
    (a : PreciseAllocation) × (try_create 8008 9000 0 ≡ some a)
    × (a.place % 16 ≡ 0)
    × (8008 ≤ a.place)
    × (cell_of a + 9000 ≤ 8008 + allocation_size 9000)
    × (is_precise (cell_of a) ≡ true)
    × (from_cell (cell_of a) ≡ a.place)
    × (base_pointer a ≡ 8008)
try_create_lem_example = try_create_lem 8008 9000 0 refl (omega arith)

-- A large object that is marked, and one that is not.
abbrev two : LargeObjectSpace
two = record {
  allocations =
      record {
        place = 16;
        cell_size = 9000;
        is_marked = true;
        index_in_space = 0;
        adjusted_alignment = false;
        has_valid_cell = true;
      }
      ∷ record {
        place = 20000;
        cell_size = 9000;
        is_marked = false;
        index_in_space = 1;
        adjusted_alignment = false;
        has_valid_cell = true;
      }
      ∷ [];
  freed = [];
}

never_freed_example :
    ((sweep_large two (λ p. 0)).space.allocations ≡ marked_ones two.allocations)
    × ((sweep_large (sweep_large two (λ p. 0)).space (λ p. 1)).space.allocations
        ≡ marked_ones two.allocations)
never_freed_example = never_freed two (λ p. 0) (λ p. 1)
