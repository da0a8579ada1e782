-- ===== src/Sweep/States.antt =====
-- The states of cells in `LocalAllocator::sweep` (crates/starlight/src/gc/allocation.rs).
use js.Common.{ℕ, ◌≡◌, ap, arith, Bool, true, not, ◌||◌, List, [], ◌∷◌, ◌++◌}
use js.Common.{◌==◌, Bool-cases, inl, inr}
use js.Block.{Block}
use js.Sweep.{
  Sweep, Blocks, walk, sweep_cell, sweep_cells, sweep_block, place_block, sweep_blocks, sweep,
  definetely_white,
}
use js.Sweep.Cells.{mem}
use js.Sweep.Survive.{all_cells, mem-append}

-- The cell is dead or white.
abbrev pub is_settled : Sweep → ℕ → Bool
is_settled w p = not (w.live p) || w.states p == definetely_white

sweep_cell_settled :
    (size : ℕ) (w : Sweep) (c p : ℕ)
    → (is_settled w p || c == p) ≡ true
    → is_settled (sweep_cell size w c) p ≡ true
unfolding sweep_cell
sweep_cell_settled size w c p h = elim (Bool-cases (c == p)) [
  | inl e ↦
      let same : c ≡ p = ground (arith, e) in ground (arith, e, ap w.live same, ap w.marked same)
  | inr e ↦ ground (arith, e, h)
]

sweep_cells_settled :
    (size : ℕ) (cs : List ℕ) (w : Sweep) (p : ℕ)
    → (is_settled w p || mem p cs) ≡ true
    → is_settled (sweep_cells size w cs) p ≡ true
unfolding sweep_cells mem
sweep_cells_settled size [] w p h = ground (arith, h)
sweep_cells_settled size (c ∷ cs) w p h =
    let one = sweep_cell_settled size w c p in
    sweep_cells_settled size cs (sweep_cell size w c) p
      (elim (Bool-cases (is_settled w p || c == p)) [
        | inl e ↦ ground (arith, one e)
        | inr e ↦ ground (arith, e, h)
      ])

module _ (header : ℕ) where
  sweep_blocks_settled :
      (bs : List Block) (w : Sweep) (r : Blocks) (p : ℕ)
      → (is_settled w p || mem p (all_cells header bs)) ≡ true
      → is_settled (sweep_blocks header bs w r).0 p ≡ true
  unfolding sweep_blocks all_cells mem sweep_block
  sweep_blocks_settled [] w r p h = ground (arith, h)
  sweep_blocks_settled (b ∷ bs) w r p h =
      let w' = sweep_block header b w in
      let one =
        sweep_cells_settled b.cell_size (walk header b) (record w { head = 0; fully_free = true })
          p in
      let m = mem-append p (walk header b) (all_cells header bs) in
      sweep_blocks_settled bs w' (place_block header b w' r) p
        (elim (Bool-cases (is_settled w p || mem p (walk header b))) [
          | inl e ↦ ground (arith, one e)
          | inr e ↦ ground (arith, e, h, m)
        ])

  -- After the sweep of an allocator, its cells are dead or white, and so are the cells that were.
  pub sweep_settled :
      (current unavail : List Block) (w : Sweep) (free : List ℕ) (p : ℕ)
      → (is_settled w p || mem p (all_cells header current ++ all_cells header unavail)) ≡ true
      → is_settled (sweep header current unavail w free).0 p ≡ true
  unfolding sweep
  sweep_settled current unavail w free p h =
      let start : Blocks = record { available = []; unavailable = []; returned = free } in
      let (w1, r1) = sweep_blocks header current w start in
      let one = sweep_blocks_settled current w start p in
      let m = mem-append p (all_cells header current) (all_cells header unavail) in
      sweep_blocks_settled unavail w1 r1 p
        (elim (Bool-cases (is_settled w p || mem p (all_cells header current))) [
          | inl e ↦ ground (arith, one e)
          | inr e ↦ ground (arith, e, h, m)
        ])
