-- ===== src/Block/Tests.antt =====
-- A concrete block (crates/starlight/src/gc/block.rs).
use js.Common.{◌≡◌, arith, refl, true}
use js.Block.{Block, Links, begin, cell, cell_count, init, is_aligned, align_usize}
use js.Block.Cells.{IsPlaced}
use js.Block.Free.{IsFree, cells_down, init-IsFree}

-- 64-byte cells behind a header of 24 bytes.
abbrev block : Block
block = record { address = 0x10000; next = 0; allocated = true; cell_size = 64; free = 0 }

block-IsPlaced : IsPlaced 24 block
block-IsPlaced = record {
  in_space = omega arith;
  header_fits = omega arith;
  sized = omega arith;
  not_null = omega arith;
}

third_inside : (cell_count 24 block ≡ 255) × (cell 24 block 3 ≡ 0x100d8)
unfolding cell_count cell begin
third_inside = (refl, refl)

no_links : Links
no_links p = 0

init-IsFree_example :
    let (ok, links', b') = init 24 no_links block 64 in
    (ok ≡ true)
    × (b'.cell_size ≡ 64)
    × (b'.address ≡ 0x10000)
    × IsFree links' b'.free (cells_down 24 block (cell_count 24 block))
unfolding is_aligned align_usize
init-IsFree_example =
    init-IsFree 24 no_links block 64 block-IsPlaced (omega arith) (omega arith) refl
