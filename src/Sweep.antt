-- ===== src/Sweep.antt =====
-- Sweeping: `LocalAllocator::sweep` of crates/starlight/src/gc/allocation.rs, with `Block::walk` of
-- crates/starlight/src/gc/block.rs.
-- The bitmaps of live and of marked cells are sets of the addresses of cells, which lie a granule apart or more, so that
-- each has a bit of its own (SpaceBitmap/Bits). The blocks of an
-- allocator are linked by `next`; here they are a list. Running the destructor of a cell (`drop_in_place`) is
-- recorded in `dropped`.
pub mod Cells
pub mod Survive
pub mod States
pub mod Places
mod Tests
use js.Common.{ℕ, zero, suc, ◌+◌, Bool, true, false, not, ◌&&◌, List, [], ◌∷◌}
use js.Common.{◌==◌, if◌then◌else◌}
use js.Block.{Block, Links, add, cell, cell_count}

abbrev pub definetely_white : ℕ
definetely_white = 1

-- `mark_bitmap.clear(c)` and `live_bitmap.clear(c)`
abbrev pub without : (ℕ → Bool) → ℕ → ℕ → Bool
without s c p = if p == c then false else s p

-- What the closure in `sweep` changes; `links` and `head` are the free list.
pub record Sweep : Type 0 where
  pub links : Links
  pub head : ℕ
  pub live : ℕ → Bool
  pub marked : ℕ → Bool
  pub states : ℕ → ℕ
  pub fully_free : Bool
  pub allocated : ℕ
  pub dropped : List ℕ

unfoldable pub sweep_cell : ℕ → Sweep → ℕ → Sweep
sweep_cell size w c =
    let (links, head) = add w.links w.head c in
    if w.live c
    then (if w.marked c
        then record w {
          marked = without w.marked c;
          fully_free = false;
          states = λ p. if p == c then definetely_white else w.states p;
          allocated = w.allocated + size;
        }
        else record w {
          marked = without w.marked c;
          live = without w.live c;
          dropped = c ∷ w.dropped;
          links = links;
          head = head;
        })
    else record w { links = links; head = head }

-- The cells that `walk` visits.
unfoldable pub sweep_cells : ℕ → Sweep → List ℕ → Sweep
sweep_cells size w [] = w
sweep_cells size w (c ∷ cs) = sweep_cells size (sweep_cell size w c) cs

-- The blocks with free cells, those without, and the addresses that went back to the `BlockAllocator`, the
-- last one first.
pub record Blocks : Type 0 where
  pub available : List Block
  pub unavailable : List Block
  pub returned : List ℕ

module _ (header : ℕ) where
  -- The cells of a block from `i` on, of which `n` are left.
  unfoldable pub walk_from : Block → ℕ → ℕ → List ℕ
  walk_from b zero i = []
  walk_from b (suc n) i = cell header b i ∷ walk_from b n (i + 1)

  unfoldable pub walk : Block → List ℕ
  walk b = walk_from b (cell_count header b) 0

  unfoldable pub sweep_block : Block → Sweep → Sweep
  sweep_block b w = sweep_cells b.cell_size (record w { head = 0; fully_free = true }) (walk b)

  unfoldable pub place_block : Block → Sweep → Blocks → Blocks
  place_block b w bs =
      let b' = record b { free = w.head } in
      if w.head == 0
      then record bs { unavailable = b' ∷ bs.unavailable }
      else if w.fully_free
      then record bs { returned = b.address ∷ bs.returned }
      else record bs { available = b' ∷ bs.available }

  -- One of the two loops over blocks.
  unfoldable pub sweep_blocks : List Block → Sweep → Blocks → Sweep × Blocks
  sweep_blocks [] w bs = (w, bs)
  sweep_blocks (b ∷ rest) w bs =
      let w' = sweep_block b w in sweep_blocks rest w' (place_block b w' bs)

  -- `LocalAllocator::sweep`: the new `current` and `unavail` are `available` and `unavailable`.
  unfoldable pub sweep : List Block → List Block → Sweep → List ℕ → Sweep × Blocks
  sweep current unavail w free_blocks =
      let (w', bs) =
        sweep_blocks current w
          (record { available = []; unavailable = []; returned = free_blocks }) in
      sweep_blocks unavail w' bs
