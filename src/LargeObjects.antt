-- ===== src/LargeObjects.antt =====
-- Objects larger than the size classes: crates/starlight/src/gc/large_object_space.rs. Memory comes from mimalloc:
-- the address that `mi_heap_malloc` returns is a parameter, `space`, and `owns` is what
-- `mi_is_in_heap_region` and `mi_heap_contains_block` say of an address. A `PreciseAllocation` is written with its
-- address `place`. `none` is a failed assertion.
pub mod Place
pub mod Marks
mod Tests
use js.Common.{
  ℕ, ◌+◌, ◌-◌, ◌^◌, ◌%◌, Bool, true, false, not, ◌&&◌, Option, none, some, List, [], ◌∷◌, ◌++◌,
  bit_and, bit_or,
}
use js.Common.{leb, ltb, ◌==◌, if◌then◌else◌, length}
use js.Sweep.{definetely_white}

pub record PreciseAllocation : Type 0 where
  pub place : ℕ
  pub cell_size : ℕ
  pub is_marked : Bool
  pub index_in_space : ℕ
  pub adjusted_alignment : Bool
  pub has_valid_cell : Bool

abbrev pub alignment : ℕ
alignment = 16

abbrev pub half_alignment : ℕ
half_alignment = 8

-- `size_of::<PreciseAllocation>()`, with `repr(C)` and words of 64 bits.
abbrev pub precise_size : ℕ
precise_size = 24

-- `(size + 7) & !7 | 8`
unfoldable pub header_size : ℕ
header_size =
    bit_or (bit_and (precise_size + half_alignment - 1) (2 ^ 64 - 1 - (half_alignment - 1)))
      half_alignment

unfoldable pub is_precise : ℕ → Bool
is_precise raw_ptr = not (bit_and raw_ptr half_alignment == 0)

unfoldable pub from_cell : ℕ → ℕ
from_cell ptr = ptr - header_size

unfoldable pub base_pointer : PreciseAllocation → ℕ
base_pointer a = if a.adjusted_alignment then a.place - half_alignment else a.place

unfoldable pub clear_marked : PreciseAllocation → PreciseAllocation
clear_marked a = record a { is_marked = false }

unfoldable pub test_and_set_marked : PreciseAllocation → Bool × PreciseAllocation
test_and_set_marked a = if a.is_marked then (true, a) else (false, record a { is_marked = true })

unfoldable pub cell_of : PreciseAllocation → ℕ
cell_of a = a.place + header_size

unfoldable pub above_lower_bound : PreciseAllocation → ℕ → Bool
above_lower_bound a raw_ptr = leb (cell_of a) raw_ptr

unfoldable pub below_upper_bound : PreciseAllocation → ℕ → Bool
below_upper_bound a raw_ptr = leb raw_ptr (cell_of a + a.cell_size + 8)

unfoldable pub contains_pointer : PreciseAllocation → ℕ → Bool
contains_pointer a raw_ptr = above_lower_bound a raw_ptr && below_upper_bound a raw_ptr

-- Whether the allocation is kept, and the allocation. The destructor of the cell runs when it is not kept.
unfoldable pub sweep_one : PreciseAllocation → Bool × PreciseAllocation
sweep_one a = if not a.is_marked then (false, record a { has_valid_cell = false }) else (true, a)

unfoldable pub is_aligned_for_precise_allocation : ℕ → Bool
is_aligned_for_precise_allocation mem = bit_and mem (alignment - 1) == 0

unfoldable pub new_allocation : ℕ → Bool → ℕ → ℕ → Option PreciseAllocation
new_allocation place adjusted size index_in_space =
    if size == 0
    then none
    else some (record {
      place = place;
      cell_size = size;
      is_marked = false;
      index_in_space = index_in_space;
      adjusted_alignment = adjusted;
      has_valid_cell = true;
    })

unfoldable pub try_create : ℕ → ℕ → ℕ → Option PreciseAllocation
try_create space size index_in_space =
    if not (is_aligned_for_precise_allocation space)
    then (if is_aligned_for_precise_allocation (space + half_alignment)
        then new_allocation (space + half_alignment) true size index_in_space
        else none)
    else new_allocation space false size index_in_space

-- The bytes that `try_create` asks for.
unfoldable pub allocation_size : ℕ → ℕ
allocation_size size = header_size + size + half_alignment

pub record LargeObjectSpace : Type 0 where
  pub allocations : List PreciseAllocation
  -- the addresses given back by `mi_free`, the last one first
  pub freed : List ℕ

-- What `sweep` changes besides the space: the states of cells, the bytes that are kept, the
-- cells whose destructor ran, the last one first.
pub record Swept : Type 0 where
  pub space : LargeObjectSpace
  pub states : ℕ → ℕ
  pub sweeped : ℕ
  pub dropped : List ℕ

-- One call of the closure that `retain` gets.
unfoldable pub retain_one : Swept → PreciseAllocation → Swept
retain_one w a =
    let (retain, p) = sweep_one a in
    if not retain
    then record w {
      space = record w.space { freed = base_pointer p ∷ w.space.freed };
      dropped = cell_of p ∷ w.dropped;
    }
    else record w {
      space = record w.space { allocations = w.space.allocations ++ (p ∷ []) };
      states = λ q. if q == cell_of p then definetely_white else w.states q;
      sweeped = w.sweeped + p.cell_size;
    }

unfoldable pub retain_all : Swept → List PreciseAllocation → Swept
retain_all w [] = w
retain_all w (a ∷ as') = retain_all (retain_one w a) as'

unfoldable pub sweep_large : LargeObjectSpace → (ℕ → ℕ) → Swept
sweep_large s states =
    retain_all
      (record { space = record s { allocations = [] }; states = states; sweeped = 0; dropped = [] })
      s.allocations

unfoldable pub is_allocation : List PreciseAllocation → ℕ → Bool
is_allocation [] p = false
is_allocation (a ∷ as') p = if a.place == p then true else is_allocation as' p

unfoldable pub contains : (ℕ → Bool) → LargeObjectSpace → ℕ → Bool
contains owns s p = owns (from_cell p) && is_allocation s.allocations (from_cell p)

-- The address of the cell and the new bytes since the last collection.
unfoldable pub alloc : ℕ → LargeObjectSpace → ℕ → ℕ → Option (ℕ × ℕ × LargeObjectSpace)
alloc space s size th = elim (try_create space size (length s.allocations % 2 ^ 32)) [
  | none ↦ none
  | some a ↦
      some (cell_of a, th + a.cell_size, record s { allocations = s.allocations ++ (a ∷ []) })
]
