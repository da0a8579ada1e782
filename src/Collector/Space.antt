-- ===== src/Collector/Space.antt =====
-- `Space::sweep` over the allocators (crates/starlight/src/gc/allocation.rs).
use js.Common.{ℕ, ◌≡◌, arith, true, false, not, ◌&&◌, ◌||◌, List, [], ◌∷◌, ◌++◌}
use js.Common.{if◌then◌else◌, Bool-cases, inl, inr}
use js.LocalAllocator.{LocalAllocator}
use js.Sweep.{Sweep, sweep}
use js.Sweep.Cells.{mem, is_distinct}
use js.Sweep.Survive.{all_cells, mem-append, apart, sweep_lem, survives}
use js.Sweep.States.{is_settled, sweep_settled}
use js.Collector.{sweep_allocators}

module _ (header : ℕ) where
  abbrev pub own_cells : LocalAllocator → List ℕ
  own_cells a = all_cells header a.current ++ all_cells header a.unavail

  -- The cells of the blocks of all allocators.
  unfoldable pub cells_of : List LocalAllocator → List ℕ
  cells_of [] = []
  cells_of (a ∷ as') = own_cells a ++ cells_of as'

  -- `Space::sweep` on allocators that share no cell.
  pub sweep_allocators_lem :
      (as' : List LocalAllocator) (w : Sweep) (free : List ℕ)
      → is_distinct (cells_of as') ≡ true
      → mem 0 (cells_of as') ≡ false
      → (p : ℕ)
      → let w' = (sweep_allocators header as' w free).0 in
        (w'.live p ≡ (if mem p (cells_of as') then survives header w p else w.live p))
        × (w'.marked p ≡ (w.marked p && not (mem p (cells_of as') && w.live p)))
  unfolding sweep_allocators cells_of mem
  sweep_allocators_lem [] w free d z p = (ground arith, ground arith)
  sweep_allocators_lem (a ∷ as') w free d z p =
      let (d1, d2, far) = apart (own_cells a) (cells_of as') d in
      let z' = mem-append 0 (own_cells a) (cells_of as') in
      let one = sweep_lem header a.current a.unavail w free d1 (ground (arith, z, z')) p in
      let (w1, bs) = sweep header a.current a.unavail w free in
      let rest = sweep_allocators_lem as' w1 bs.returned d2 (ground (arith, z, z')) p in
      let m = mem-append p (own_cells a) (cells_of as') in
      let f = far p in
      (ground (arith, one.0, rest.0, one.1, f, m), ground (arith, one.0, rest.1, one.1, f, m))

  pub sweep_allocators_settled :
      (as' : List LocalAllocator) (w : Sweep) (free : List ℕ) (p : ℕ)
      → (is_settled w p || mem p (cells_of as')) ≡ true
      → is_settled (sweep_allocators header as' w free).0 p ≡ true
  unfolding sweep_allocators cells_of mem
  sweep_allocators_settled [] w free p h = ground (arith, h)
  sweep_allocators_settled (a ∷ as') w free p h =
      let (w1, bs) = sweep header a.current a.unavail w free in
      let one = sweep_settled header a.current a.unavail w free p in
      let m = mem-append p (own_cells a) (cells_of as') in
      sweep_allocators_settled as' w1 bs.returned p
        (elim (Bool-cases (is_settled w p || mem p (own_cells a))) [
          | inl e ↦ ground (arith, one e)
          | inr e ↦ ground (arith, e, h, m)
        ])
