-- ===== src/Sweep/Survive.antt =====
-- `LocalAllocator::sweep` (crates/starlight/src/gc/allocation.rs) on the blocks of an allocator.
use js.Common.{ℕ, ◌≡◌, ap, arith, refl, Bool, true, false, not, ◌&&◌, ◌||◌, List, [], ◌∷◌, ◌++◌}
use js.Common.{◌==◌, if◌then◌else◌, Bool-cases, inl, inr}
use js.Block.{Block}
use js.Block.Free.{IsFree, IsAbsent}
use js.Sweep.{Sweep, Blocks, walk, sweep_block, place_block, sweep_blocks, sweep}
use js.Sweep.Cells.{mem, is_distinct, IsSwept, swept}

pub mem-append : (p : ℕ) (xs ys : List ℕ) → mem p (xs ++ ys) ≡ (mem p xs || mem p ys)
unfolding mem
mem-append p [] ys = refl
mem-append p (x ∷ xs) ys = ground (arith, mem-append p xs ys)

-- A list without repetition has its parts without, and apart.
pub apart :
    (xs ys : List ℕ)
    → is_distinct (xs ++ ys) ≡ true
    → (is_distinct xs ≡ true) × (is_distinct ys ≡ true) × ((p : ℕ) → (mem p xs && mem p ys) ≡ false)
unfolding is_distinct mem
apart [] ys d = (refl, d, λ p. refl)
apart (x ∷ xs) ys d =
    let (a, b, c) = apart xs ys (ground arith) in
    let n = mem-append x xs ys in
    (
      ground arith,
      b,
      λ p. elim (Bool-cases (x == p)) [
        | inr e ↦ ground (arith, c p)
        | inl e ↦
            let same : mem p ys ≡ mem x ys = ap (λ q. mem q ys) (ground arith) in
            ground (arith, c p)
      ],
    )

module _ (header : ℕ) where
  abbrev pub survives : Sweep → ℕ → Bool
  survives w p = w.live p && w.marked p

  -- The sweep of a block with distinct cells: the cells that are live and marked stay live, the others of the
  -- block are dead, and no live cell stays marked; other cells are as they were. The free list has the cells that do
  -- not survive, the last one first; the block counts as free if none survives, and the bytes
  -- of those that do are counted.
  pub sweep_block_lem :
      (b : Block) (w : Sweep)
      → is_distinct (walk header b) ≡ true
      → mem 0 (walk header b) ≡ false
      → IsSwept b.cell_size
          (survives w)
          (walk header b)
          []
          (record w { head = 0; fully_free = true })
          (sweep_block header b w)
  unfolding sweep_block IsFree IsAbsent
  sweep_block_lem b w d z =
      swept b.cell_size (survives w) (walk header b) [] (record w { head = 0; fully_free = true }) d
        z (λ p m. refl) (λ p m. tt) refl

  -- The cells of all blocks.
  unfoldable pub all_cells : List Block → List ℕ
  all_cells [] = []
  all_cells (b ∷ bs) = walk header b ++ all_cells bs

  -- One of the two loops, over blocks that share no cell.
  pub sweep_blocks_lem :
      (bs : List Block) (w : Sweep) (r : Blocks)
      → is_distinct (all_cells bs) ≡ true
      → mem 0 (all_cells bs) ≡ false
      → (p : ℕ)
      → ((sweep_blocks header bs w r).0.live p
          ≡ (if mem p (all_cells bs) then survives w p else w.live p))
        × ((sweep_blocks header bs w r).0.marked p
            ≡ (w.marked p && not (mem p (all_cells bs) && w.live p)))
  unfolding sweep_blocks all_cells mem
  sweep_blocks_lem [] w r d z p = (ground arith, ground arith)
  sweep_blocks_lem (b ∷ bs) w r d z p =
      let (d1, d2, far) = apart (walk header b) (all_cells bs) d in
      let w' = sweep_block header b w in
      let z' = mem-append 0 (walk header b) (all_cells bs) in
      let s = sweep_block_lem b w d1 (ground arith) in
      let ih = sweep_blocks_lem bs w' (place_block header b w' r) d2 (ground arith) p in
      let m = mem-append p (walk header b) (all_cells bs) in
      let f = far p in (ground (arith, s.live p, s.marked p), ground (arith, s.live p, s.marked p))

  -- After the sweep of an allocator whose blocks share no cell, a cell of its blocks is live exactly if it was
  -- live and marked, no cell of its blocks that was live is marked, and the cells of other allocators are as
  -- they were.
  pub sweep_lem :
      (current unavail : List Block) (w : Sweep) (free_blocks : List ℕ)
      → is_distinct (all_cells current ++ all_cells unavail) ≡ true
      → mem 0 (all_cells current ++ all_cells unavail) ≡ false
      → (p : ℕ)
      → let w' = (sweep header current unavail w free_blocks).0 in
        let own = mem p (all_cells current ++ all_cells unavail) in
        (w'.live p ≡ (if own then survives w p else w.live p))
        × (w'.marked p ≡ (w.marked p && not (own && w.live p)))
  unfolding sweep
  sweep_lem current unavail w free_blocks d z p =
      let (d1, d2, far) = apart (all_cells current) (all_cells unavail) d in
      let z' = mem-append 0 (all_cells current) (all_cells unavail) in
      let start : Blocks = record { available = []; unavailable = []; returned = free_blocks } in
      let first = sweep_blocks_lem current w start d1 (ground arith) p in
      let (w1, r1) = sweep_blocks header current w start in
      let second = sweep_blocks_lem unavail w1 r1 d2 (ground arith) p in
      let m = mem-append p (all_cells current) (all_cells unavail) in
      let f = far p in (ground arith, ground arith)
