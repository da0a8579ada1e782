-- ===== src/LocalAllocator/Tests.antt =====
-- An allocator with two free cells, and one with no block: crates/starlight/src/gc/allocation.rs.
use js.Common.{◌*◌, ◌≡◌, arith, refl, some, [], ◌∷◌}
use js.Common.{◌==◌, if◌then◌else◌}
use js.Block.{Block, block_size, cell, cell_count, begin}
use js.Block.Cells.{IsPlaced}
use js.Block.Free.{IsFree}
use js.BlockAllocator.{
  BlockAllocator, get_from, get_block, build_block, exchange_loop, new_allocator, new_mmap, aligned,
}
use js.LocalAllocator.{Memory, new_local, allocate_cell}
use js.LocalAllocator.Ready.{IsReady, empty, front, no_more, sized, allocate_cell_lem}

abbrev heap : BlockAllocator
heap = new_allocator js.Block.new 100 (4 * block_size)

-- The cell at 16416 is free, then the one at 20512.
abbrev two_free : Memory
two_free = record {
  links = λ p. if p == 16416 then 20512 else 0;
  blocks = heap;
  local = record {
    cell_size = 4096;
    current = record (js.Block.new block_size) { free = 16416 } ∷ [];
    unavail = [];
  };
}

two_free-IsReady : IsReady two_free.links two_free.local.current (16416 ∷ 20512 ∷ [])
unfolding IsFree js.Block.new
two_free-IsReady =
    front (16416 ∷ 20512 ∷ []) []
      (refl, (λ e. omega (arith, e)), (refl, (λ e. omega (arith, e)), refl)) no_more refl

allocate_cell_lem_example :
    (m' : Memory) × (allocate_cell 32 0 two_free ≡ some (16416, m'))
    × IsReady m'.links m'.local.current (20512 ∷ [])
    × (m'.links ≡ two_free.links)
    × (m'.blocks ≡ two_free.blocks)
allocate_cell_lem_example = allocate_cell_lem 32 0 two_free 16416 (20512 ∷ []) two_free-IsReady

abbrev no_block : Memory
no_block = record { links = λ p. 0; blocks = heap; local = new_local 4096 }

no_block-IsReady : IsReady no_block.links no_block.local.current []
unfolding new_local
no_block-IsReady = empty

abbrev heap_after : BlockAllocator
heap_after = (get_block 0 heap).1

first_block : get_block 0 no_block.blocks ≡ (some block_size, heap_after)
unfolding get_block get_from build_block exchange_loop new_allocator new_mmap aligned
first_block = refl

first-IsPlaced : IsPlaced 32 (sized no_block heap_after block_size)
unfolding get_block get_from build_block exchange_loop new_allocator new_mmap aligned new_local
    js.Block.new
first-IsPlaced = record {
  in_space = omega arith;
  header_fits = omega arith;
  sized = omega arith;
  not_null = omega arith;
}

three_cells : cell_count 32 (sized no_block heap_after block_size) ≡ 3
unfolding cell_count new_local
three_cells = refl
