-- ===== src/LocalAllocator.antt =====
-- The allocation of cells of one size: `LocalAllocator::allocate` and `new` of crates/starlight/src/gc/allocation.rs.
-- The blocks that are linked by `next` are a list, as in Sweep; a block that the `BlockAllocator` hands out
-- leads to no other. `none` is the panic when the heap is out of memory, and a cell size that `init` rejects.
pub mod Ready
mod Tests
use js.Common.{ℕ, zero, suc, ◌%◌, ◌^◌, Bool, Option, none, some, List, [], ◌∷◌}
use js.Common.{◌==◌, if◌then◌else◌}
use js.Block.{Block, Links, allocate, init}
use js.BlockAllocator.{BlockAllocator, get_block}

pub record LocalAllocator : Type 0 where
  pub cell_size : ℕ
  pub current : List Block
  pub unavail : List Block

unfoldable pub new_local : ℕ → LocalAllocator
new_local cell_size = record { cell_size = cell_size; current = []; unavail = [] }

-- What `allocate` changes: the free entries, the block allocator and the allocator itself.
pub record Memory : Type 0 where
  pub links : Links
  pub blocks : BlockAllocator
  pub local : LocalAllocator

module _ (header failures : ℕ) where
  -- `self.current = get_block()`, and `init` on it.
  unfoldable pub renew_with : Memory → Option ℕ × BlockAllocator → Option (Block × Memory)
  renew_with m (none, blocks) = none
  renew_with m (some at', blocks) =
      let (ok, links, block) =
        init header m.links (blocks.headers at') (m.local.cell_size % 2 ^ 16) in
      if ok
      then some (
        block,
        record { links = links; blocks = blocks; local = record m.local { current = block ∷ [] } },
      )
      else none

  unfoldable pub renew : Memory → Option (Block × Memory)
  renew m = renew_with m (get_block failures m.blocks)

  -- The block `block` in front of `next` gives a cell.
  abbrev pub give : Memory → Block → List Block → ℕ × Memory
  give m block next =
      let (ptr, block') = allocate m.links block in
      (ptr, record m { local = record m.local { current = block' ∷ next } })

  abbrev pub give_new : Option (Block × Memory) → Option (ℕ × Memory)
  give_new none = none
  give_new (some (block, m)) = some (give m block [])

  -- After a null pointer from `block`, which is in front of `next`.
  unfoldable pub allocate_next : Memory → Block → List Block → Option (ℕ × Memory)
  allocate_next m block [] =
      give_new (renew (record m { local = record m.local { unavail = block ∷ m.local.unavail } }))
  allocate_next m block (b ∷ bs) =
      some (give (record m { local = record m.local { unavail = block ∷ m.local.unavail } }) b bs)

  unfoldable pub allocate_from : Memory → Block → List Block → Option (ℕ × Memory)
  allocate_from m block next =
      let (ptr, m') = give m block next in
      let after = allocate_next m (allocate m.links block).1 next in
      if ptr == 0 then after else some (ptr, m')

  abbrev pub allocate_first : Option (Block × Memory) → Option (ℕ × Memory)
  allocate_first none = none
  allocate_first (some (block, m)) = allocate_from m block []

  unfoldable pub allocate_in : Memory → List Block → Option (ℕ × Memory)
  allocate_in m [] = allocate_first (renew m)
  allocate_in m (b ∷ bs) = allocate_from m b bs

  unfoldable pub allocate_cell : Memory → Option (ℕ × Memory)
  allocate_cell m = allocate_in m m.local.current
