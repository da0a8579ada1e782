-- ===== src/BlockAllocator.antt =====
-- The blocks of the heap: crates/starlight/src/gc/block_allocator.rs. Addresses are numbers below 2^64. `mmap` chooses
-- the start of the mapping, which is a parameter; the advice to the system (`commit`, `dontneed`) changes
-- no state here: it may clear a block that was given back, which is read again only after it was set up anew. `compare_exchange_weak` may fail without a reason, and `failures` is how often it does.
-- `headers` are the headers of blocks in memory. The last block of `free_blocks` is the first of the list.
mod Clients
mod Exchange
pub mod Owned
pub mod Available
mod Tests
use js.Common.{ℕ, zero, suc, ◌+◌, ◌-◌, ◌/◌, ◌%◌, ◌^◌, Bool, ◌&&◌, Option, none, some, List, [], ◌∷◌}
use js.Common.{length, ltb, leb, ◌==◌, if◌then◌else◌}
use js.Block.{Block, block_size}

pub record Mmap : Type 0 where
  pub start : ℕ
  pub end : ℕ
  pub size : ℕ

unfoldable pub new_mmap : ℕ → ℕ → Mmap
new_mmap start size = record { start = start; end = (start + size) % 2 ^ 64; size = size }

-- A whole block is added to a start that is aligned already.
unfoldable pub aligned : Mmap → ℕ
aligned m = m.start + (block_size - m.start % block_size)

pub record BlockAllocator : Type 0 where
  pub free_blocks : List ℕ
  pub data_bound : ℕ
  pub data' : ℕ
  pub mmap : Mmap
  pub headers : ℕ → Block

unfoldable pub total_blocks : BlockAllocator → ℕ
total_blocks a = (a.mmap.end - aligned a.mmap) / block_size

unfoldable pub new_allocator : (ℕ → Block) → ℕ → ℕ → BlockAllocator
new_allocator headers start size =
    let map = new_mmap start size in
    record {
      free_blocks = [];
      data_bound = map.end;
      data' = aligned map;
      mmap = map;
      headers = headers;
    }

unfoldable pub is_in_space : BlockAllocator → ℕ → Bool
is_in_space a object = ltb a.mmap.start object && leb object a.data_bound

-- The loop of `build_block` at the value `old` of `data'`: the block, and the new `data'`.
unfoldable pub exchange_loop : ℕ → ℕ → ℕ → ℕ → Option ℕ × ℕ
exchange_loop zero bound data' old =
    let new = (old + block_size) % 2 ^ 64 in
    if ltb bound new then (none, data') else (some old, new)
exchange_loop (suc failures) bound data' old =
    let new = (old + block_size) % 2 ^ 64 in
    let rest = exchange_loop failures bound data' data' in
    if ltb bound new then (none, data') else rest

unfoldable pub build_block : ℕ → BlockAllocator → Option ℕ × BlockAllocator
build_block failures a =
    let (block, data') = exchange_loop failures a.data_bound a.data' a.data' in
    (block, record a { data' = data' })

-- `Block::new` writes the header of a block that is used again.
unfoldable pub get_from : ℕ → BlockAllocator → List ℕ → Option ℕ × BlockAllocator
get_from failures a [] = build_block failures a
get_from failures a (x ∷ xs) = (
  some x,
  record a { free_blocks = xs; headers = λ p. if p == x then js.Block.new x else a.headers p },
)

unfoldable pub get_block : ℕ → BlockAllocator → Option ℕ × BlockAllocator
get_block failures a = get_from failures a a.free_blocks

unfoldable pub return_block : BlockAllocator → ℕ → BlockAllocator
return_block a block = record a { free_blocks = block ∷ a.free_blocks }

unfoldable pub return_blocks : BlockAllocator → List ℕ → BlockAllocator
return_blocks a [] = a
return_blocks a (block ∷ blocks) = return_blocks (return_block a block) blocks

unfoldable pub available_blocks : BlockAllocator → ℕ
available_blocks a =
    let nblocks = (a.data_bound - a.data') / block_size in nblocks + length a.free_blocks
