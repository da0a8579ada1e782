-- ===== src/BlockAllocator/Tests.antt =====
-- A small mapping: crates/starlight/src/gc/block_allocator.rs.
use js.Common.{
  ℕ, ◌+◌, ◌-◌, ◌*◌, ◌%◌, ◌≤◌, ◌<◌, ◌≡◌, arith, refl, true, false, not, ◌||◌, some, [], ◌∷◌,
}
use js.Common.{leb, ◌==◌, if◌then◌else◌}
use js.Block.{Block, block_size}
use js.BlockAllocator.{
  get_from, get_block, build_block, exchange_loop, new_allocator, new_mmap, aligned,
  available_blocks, return_block, total_blocks, return_blocks, is_in_space,
}
use js.BlockAllocator.Owned.{get_block_sound}
use js.BlockAllocator.Clients.{Ownership, Calls, here, next, take_call, initial}
use js.BlockAllocator.Available.{is_found, available_blocks_lem}

abbrev headers : ℕ → Block
headers p = js.Block.new p

-- 4 blocks of memory from 100 on.
abbrev start_world : Ownership
start_world = initial headers 100 (4 * block_size)

-- One block is taken, after two failures of the exchange.
abbrev one_held : Ownership
one_held = record {
  allocator = (get_block 2 start_world.allocator).1;
  held = λ p. if p == block_size then true else start_world.held p;
}

one_held-Calls : Calls start_world one_held
unfolding get_block get_from build_block exchange_loop new_allocator new_mmap aligned
one_held-Calls = next here (take_call start_world 2 block_size refl)

second : (get_block 1 one_held.allocator).0 ≡ some (2 * block_size)
unfolding get_block get_from build_block exchange_loop new_allocator new_mmap aligned
second = refl

again : (get_block 0 (return_block one_held.allocator block_size)).0 ≡ some block_size
unfolding get_block get_from return_block
again = refl

counted : total_blocks start_world.allocator ≡ 3
unfolding total_blocks new_allocator new_mmap aligned
counted = refl

both_back :
    available_blocks (return_blocks start_world.allocator (block_size ∷ 2 * block_size ∷ [])) ≡ 5
unfolding available_blocks return_blocks return_block new_allocator new_mmap aligned
both_back = refl

at_the_end : is_in_space start_world.allocator (100 + 4 * block_size) ≡ true
unfolding is_in_space new_allocator new_mmap
at_the_end = refl

get_block_sound_example :
    (2 * block_size % block_size ≡ 0)
    × (100 < 2 * block_size)
    × (2 * block_size + block_size ≤ 100 + 4 * block_size)
    × (one_held.held (2 * block_size) ≡ false)
    × ((if one_held.held block_size
          then leb (2 * block_size + block_size) block_size
            || leb (block_size + block_size) (2 * block_size)
          else true)
        ≡ true)
get_block_sound_example =
    get_block_sound headers 100 (4 * block_size) 1 (2 * block_size) block_size one_held
      (omega arith) one_held-Calls second

available_blocks_lem_example :
    (is_found (get_block 3 start_world.allocator).0
      ≡ not (available_blocks start_world.allocator == 0))
    × (available_blocks (get_block 3 start_world.allocator).1
        ≡ available_blocks start_world.allocator - 1)
unfolding new_allocator new_mmap aligned
available_blocks_lem_example =
    available_blocks_lem 3 start_world.allocator (omega arith) (omega arith)
