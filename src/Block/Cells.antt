-- ===== src/Block/Cells.antt =====
-- The cells of a block and the pointers into them (crates/starlight/src/gc/block.rs).
use native.Mathlib.Nat.{mul-add-div_right, le-div_iff_mul-le, suc-mul, div-eq_of_lt}
use js.Common.{
  ℕ, suc, ap, ◌⊎◌, inl, inr, ◌+◌, ◌-◌, ◌*◌, ◌/◌, ◌^◌, ◌≤◌, ◌<◌, ◌≡◌, ◌∙◌, arith, true, false,
}
use js.Block.{
  Block, block_size, begin, end, cell_count, cell, cell_index, cell_from_ptr, is_in_block,
}

-- A block in the address space and not at null, whose cells are not empty and whose header fits.
pub record IsPlaced (header : ℕ) (b : Block) : Type 0 where
  pub in_space : b.address + block_size ≤ 2 ^ 64
  pub header_fits : header ≤ block_size
  pub sized : 0 < b.cell_size
  pub not_null : 0 < b.address

module _ (header : ℕ) (b : Block) (v : IsPlaced header b) where
  -- The cells fill what follows the header.
  fits : (i : ℕ) → i < cell_count header b → i * b.cell_size + b.cell_size ≤ block_size - header
  unfolding cell_count
  fits i h =
      let inside =
        (le-div_iff_mul-le {k = b.cell_size} {x = suc i} {y = block_size - header} v.sized).0
          (omega (arith, h)) in
      omega (arith, inside, suc-mul i b.cell_size)

  -- A cell with an index in range lies in its block, behind the header, at that multiple of the cell
  -- size from the start of the data; and every pointer into it leads back to it.
  pub cell_from_ptr-cell :
      (i k : ℕ)
      → i < cell_count header b
      → k < b.cell_size
      → (cell header b i ≡ begin header b + i * b.cell_size)
        × (cell header b i + b.cell_size ≤ end b)
        × (cell_index header b (cell header b i + k) ≡ i)
        × (cell_from_ptr header b (cell header b i + k) ≡ cell header b i)
  cell_from_ptr-cell i k h l =
      let at' : cell header b i ≡ begin header b + i * b.cell_size =
        unfold cell begin in omega (arith, fits i h, v.in_space, v.header_fits, v.sized) in
      let index : cell_index header b (cell header b i + k) ≡ i =
        unfold cell_index in
        rw at' (
          ap (λ t. t / b.cell_size) (omega arith)
          ∙ mul-add-div_right v.sized i k
          ∙ ap (λ t. i + t) (div-eq_of_lt l)
          ∙ omega arith) in
      (
        at',
        unfold begin end in omega (arith, at', fits i h, v.header_fits),
        index,
        unfold cell_from_ptr in rw index (ground (arith, at')),
      )

  -- A pointer before the start of the data, or at or behind the end of the last cell, leads to no cell.
  pub cell_from_ptr-outside :
      (ptr : ℕ)
      → (ptr < begin header b) ⊎ (begin header b + cell_count header b * b.cell_size ≤ ptr)
      → cell_from_ptr header b ptr ≡ 0
  unfolding cell_from_ptr
  cell_from_ptr-outside ptr (inl low) = ground arith
  cell_from_ptr-outside ptr (inr high) =
      let index : cell_count header b ≤ cell_index header b ptr =
        unfold cell_index in
        (le-div_iff_mul-le {k = b.cell_size} {x = cell_count header b} {y = ptr - begin header b}
            v.sized).1
          (omega (arith, high)) in
      ground (arith, index)

-- `is_in_block` of an allocated block says no of the first cell, and yes of the address `header` bytes
-- behind the end of the block.
pub is_in_block_bounds :
    (header : ℕ) (b : Block)
    → b.allocated ≡ true
    → (is_in_block header b (begin header b) ≡ false)
      × (is_in_block header b (end b + header) ≡ true)
unfolding is_in_block begin end
is_in_block_bounds header b a = (ground arith, ground arith)
