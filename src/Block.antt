-- ===== src/Block.antt =====
-- A block of equal cells and its free list: crates/starlight/src/gc/block.rs, with BLOCK_SIZE of
-- crates/starlight/src/gc/constants.rs and `is_aligned` of crates/starlight/src/gc/mem.rs.
-- An address is a number, and null is 0. The memory is the `next` field of the free entry at each address. The
-- parameter `header` is `offsetof!(Self.data_start)`, which the compiler's layout decides.
pub mod Cells
pub mod Free
mod Tests
use js.Common.{
  ℕ, zero, suc, ◌+◌, ◌-◌, ◌*◌, ◌/◌, ◌%◌, ◌^◌, Bool, true, false, ◌&&◌, ltb, leb, ◌==◌,
  if◌then◌else◌,
}

abbrev pub block_size : ℕ
block_size = 16 * 1024

unfoldable pub align_usize : ℕ → ℕ → ℕ
align_usize value align = if align == 0 then value else (value + align - 1) / align * align

unfoldable pub is_aligned : ℕ → ℕ → Bool
is_aligned value align = align_usize value align == value

abbrev pub Links : Type 0
Links = ℕ → ℕ

-- `FreeList::get`: what it returns, and the new head. The memory does not change.
unfoldable pub get : Links → ℕ → ℕ × ℕ
get links head = if head == 0 then (0, head) else (head, links head)

-- `FreeList::add`: the memory, and the new head.
unfoldable pub add : Links → ℕ → ℕ → Links × ℕ
add links head ptr = (λ p. if p == ptr then head else links p, ptr)

pub record Block : Type 0 where
  pub address : ℕ
  pub next : ℕ
  pub allocated : Bool
  pub cell_size : ℕ
  pub free : ℕ

unfoldable pub get_block_ptr : ℕ → ℕ
get_block_ptr object = object - object % block_size

-- `Block::new`, at an aligned address.
unfoldable pub new : ℕ → Block
new at' = record { address = at'; next = 0; allocated = false; cell_size = 2 ^ 16 - 1; free = 0 }

unfoldable pub allocate : Links → Block → ℕ × Block
allocate links b = let (ptr, head) = get links b.free in (ptr, record b { free = head })

unfoldable pub deallocate : Links → Block → ℕ → Links × Block
deallocate links b ptr =
    let (links', head) = add links b.free ptr in (links', record b { free = head })

unfoldable pub end : Block → ℕ
end b = b.address + block_size

module _ (header : ℕ) where
  unfoldable pub begin : Block → ℕ
  begin b = b.address + header

  unfoldable pub is_in_block : Block → ℕ → Bool
  is_in_block b p = if b.allocated then ltb (begin b) p && leb p (begin b + block_size) else false

  unfoldable pub cell_count : Block → ℕ
  cell_count b = (block_size - header) / b.cell_size

  unfoldable pub cell : Block → ℕ → ℕ
  cell b idx = (begin b + idx * b.cell_size % 2 ^ 64) % 2 ^ 64

  unfoldable pub cell_index : Block → ℕ → ℕ
  cell_index b ptr = (ptr - begin b) / b.cell_size

  unfoldable pub cell_from_ptr : Block → ℕ → ℕ
  cell_from_ptr b ptr =
      if ltb ptr (begin b)
      then 0
      else if leb (cell_count b) (cell_index b ptr)
      then 0
      else cell b (cell_index b ptr)

  -- `walk` with `freelist.add` as the callback, over the cells from `i` on, of which `n` are left.
  unfoldable pub walk_add : Block → ℕ → ℕ → Links → ℕ → Links × ℕ
  walk_add b zero i links head = (links, head)
  walk_add b (suc n) i links head =
      let (links', head') = add links head (cell b i) in walk_add b n (i + 1) links' head'

  -- The `debug_assert` on the size is the first component.
  unfoldable pub init : Links → Block → ℕ → Bool × Links × Block
  init links b cell_size =
      let b' : Block = record b { cell_size = cell_size } in
      let (links', head) = walk_add b' (cell_count b') 0 links 0 in
      (leb 16 cell_size && is_aligned cell_size 16, links', record b' { free = head })
