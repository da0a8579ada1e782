-- ===== src/LargeObjects/Place.antt =====
-- Where a large object lies in the memory that it got: crates/starlight/src/gc/large_object_space.rs.
use js.Common.{ℕ, ◌+◌, ◌/◌, ◌%◌, ◌≤◌, ◌<◌, ◌≡◌, ap, ◌∙◌, refl, arith, true, false, inl, inr, some}
use js.Common.{Bool-cases, bit, bit_and_low, bit_and-pow, ◌==◌}
use js.LargeObjects.{
  PreciseAllocation, header_size, is_precise, from_cell, base_pointer, cell_of,
  is_aligned_for_precise_allocation, new_allocation, try_create, allocation_size,
}

pub header_size_lem : header_size ≡ 24
unfolding header_size
header_size_lem = refl

is_aligned_lem : (p : ℕ) → is_aligned_for_precise_allocation p ≡ (p % 16 == 0)
unfolding is_aligned_for_precise_allocation
is_aligned_lem p = ap (λ t. t == 0) (bit_and_low 4 p)

is_precise_lem : (p : ℕ) → is_precise p ≡ (p / 8 % 2 == 1)
unfolding is_precise bit
is_precise_lem p = bit_and-pow 3 p ∙ ap (λ t. t % 2 == 1) (omega arith)

-- The cell of a place at a multiple of 16.
cell_is_precise : (p : ℕ) → p % 16 ≡ 0 → is_precise (p + header_size) ≡ true
cell_is_precise p m =
    let odd : (p + 24) / 8 % 2 ≡ 1 = omega (arith, m) in
    is_precise_lem (p + header_size)
    ∙ ap (λ t. (p + t) / 8 % 2 == 1) header_size_lem
    ∙ ap (λ t. t == 1) odd

-- From memory at a multiple of 8, an object that is not empty gets a place at a multiple of 16 inside the memory
-- asked for; the cell fits in it and has an address that `is_precise` accepts; the cell leads back to the place,
-- and the place to the memory.
pub try_create_lem :
    (space size index : ℕ)
    → space % 8 ≡ 0
    → 0 < size
    → (a : PreciseAllocation) × (try_create space size index ≡ some a)
      × (a.place % 16 ≡ 0)
      × (space ≤ a.place)
      × (cell_of a + size ≤ space + allocation_size size)
      × (is_precise (cell_of a) ≡ true)
      × (from_cell (cell_of a) ≡ a.place)
      × (base_pointer a ≡ space)
unfolding try_create new_allocation base_pointer cell_of from_cell allocation_size
try_create_lem space size index m h =
    let full : (size == 0) ≡ false = ground (arith, h) in
    let eight : header_size ≡ 24 = header_size_lem in
    let test' = is_aligned_lem space in
    elim (Bool-cases (space % 16 == 0)) [
      | inl even ↦
          let low : space % 16 ≡ 0 = ground (arith, even) in
          (
            record {
              place = space;
              cell_size = size;
              is_marked = false;
              index_in_space = index;
              adjusted_alignment = false;
              has_valid_cell = true;
            },
            rw (test', even, full) refl,
            low,
            omega arith,
            omega arith,
            cell_is_precise space low,
            omega arith,
            refl,
          )
      | inr odd ↦
          let high : (space + 8) % 16 ≡ 0 = ground (arith, odd, m) in
          let test2 : is_aligned_for_precise_allocation (space + 8) ≡ true =
            is_aligned_lem (space + 8) ∙ ap (λ t. t == 0) high in
          (
            record {
              place = space + 8;
              cell_size = size;
              is_marked = false;
              index_in_space = index;
              adjusted_alignment = true;
              has_valid_cell = true;
            },
            rw (test', odd, test2, full) refl,
            high,
            omega arith,
            omega arith,
            cell_is_precise (space + 8) high,
            omega arith,
            omega arith,
          )
    ]
