-- ===== src/Collector/Tests.antt =====
-- A collection of a heap with two cells: crates/starlight/src/gc.rs.
use js.Common.{
  ℕ, zero, suc, ◌+◌, ◌/◌, ◌≤◌, ◌<◌, ◌≡◌, refl, arith, Bool, true, false, ◌&&◌, ◌||◌, some, List, [],
  ◌∷◌,
}
use js.Common.{◌==◌, ltb, if◌then◌else◌, Bool-cases, inl, inr}
use js.Block.{Block, cell, cell_count, begin}
use js.LargeObjects.{contains, is_allocation}
use js.Sweep.{walk, walk_from, definetely_white}
use js.Sweep.Cells.{mem, is_distinct}
use js.Sweep.Survive.{all_cells}
use js.Collector.{Heap, is_heap_pointer, same_granule}
use js.Collector.Loop.{IsCovered}
use js.Collector.Reach.{from_root, child}
use js.Collector.Roots.{on_stack, visitor_of}
use js.Collector.Space.{cells_of}
use js.Collector.Finish.{IsResting, live_inside, all_live}
use js.Collector.Cycle.{
  Reached, collect, collect_keeps, collect_frees, collect_rests, collect_weak, collect_returns,
}

abbrev in_bitmap : ℕ → Bool
in_bitmap p = ltb 16383 p && ltb p 32768

abbrev owns : ℕ → Bool
owns p = false

abbrev outside : ℕ → Bool
outside p = false

-- The first cell leads to the second.
abbrev trace : ℕ → List ℕ
trace p = if p == 32736 then 32752 ∷ [] else []

-- The second word of the stack is the first cell.
abbrev words : ℕ → ℕ
words a = if a == 8 then 32736 else 0

-- Its cells are at 32736 and 32752.
abbrev block : Block
block = record { address = 16384; next = 0; allocated = true; cell_size = 16; free = 0 }

abbrev heap : Heap
heap = record {
  live = λ p. p / 16 == 2046 || p / 16 == 2047;
  marked = λ p. false;
  states = λ p. 1;
  large = record { allocations = []; freed = [] };
  links = λ p. 0;
  allocators = record { cell_size = 16; current = block ∷ []; unavail = [] } ∷ [];
  free_blocks = [];
  weak_refs = record { base = 32752; value = some 32736 } ∷ [];
  allocated = 32;
  max_heap_size = 1024;
  defers = 0;
  dropped = [];
}

heap-IsResting : IsResting 16352 in_bitmap heap
unfolding cells_of all_cells walk walk_from cell cell_count begin mem is_distinct same_granule
heap-IsResting = record {
  unmarked = λ p. refl;
  granular = λ p q e. let same : p / 16 ≡ q / 16 = ground (arith, e) in ground (arith, same);
  placed = λ p i l. elim (Bool-cases (p / 16 == 2046)) [
    | inl e ↦ (32736, ground (arith, e), refl)
    | inr e ↦ (32752, ground (arith, e, l), refl)
  ];
  distinct = refl;
  no_null = refl;
}

-- The `n` addresses from `a` on.
unfoldable range : ℕ → ℕ → List ℕ
range a zero = []
range a (suc n) = a ∷ range (a + 1) n

mem-range : (a n p : ℕ) → a ≤ p → p < a + n → mem p (range a n) ≡ true
unfolding mem range
mem-range a zero p l h = absurd (omega (arith, l, h))
mem-range a (suc n) p l h = elim (Bool-cases (a == p)) [
  | inl e ↦ ground (arith, e)
  | inr e ↦ ground (arith, e, mem-range (a + 1) n p (ground (arith, e, l)) (omega (arith, h)))
]

two_cells : IsCovered in_bitmap owns trace (range 32736 32) (visitor_of heap)
unfolding is_heap_pointer contains is_allocation
two_cells p h = mem-range 32736 32 p (ground (arith, h)) (ground (arith, h))

first-Reached : Reached 16352 in_bitmap owns outside trace 32 words 32 0 [] heap 32736
unfolding is_heap_pointer
first-Reached = from_root 32736 (on_stack 1 (omega arith)) refl

second-Reached : Reached 16352 in_bitmap owns outside trace 32 words 32 0 [] heap 32752
unfolding mem is_heap_pointer
second-Reached = child 32736 32752 first-Reached refl refl

abbrev returned :
    (h' : Heap) × (collect 16352 in_bitmap owns outside trace 32 words 32 0 [] heap ≡ some h')
unfolding range
returned =
    collect_returns 16352 in_bitmap owns outside trace 32 words 32 0 [] heap (range 32736 32)
      two_cells (omega arith)

collect_returns_example :
    (h' : Heap) × (collect 16352 in_bitmap owns outside trace 32 words 32 0 [] heap ≡ some h')
unfolding range
collect_returns_example =
    collect_returns 16352 in_bitmap owns outside trace 32 words 32 0 [] heap (range 32736 32)
      two_cells (omega arith)

collect_keeps_example : returned.0.live 32752 ≡ true
collect_keeps_example =
    collect_keeps 16352 in_bitmap owns outside trace 32 words 32 0 [] heap returned.0 32752
      heap-IsResting refl returned.1 refl second-Reached

collect_frees_example :
    (q : ℕ) × (same_granule 32752 q ≡ true)
    × Reached 16352 in_bitmap owns outside trace 32 words 32 0 [] heap q
collect_frees_example =
    collect_frees 16352 in_bitmap owns outside trace 32 words 32 0 [] heap returned.0 32752
      heap-IsResting refl returned.1 refl collect_keeps_example

collect_rests_example :
    (returned.0.marked 32752 ≡ false)
    × ((if mem 32752 (cells_of 16352 heap.allocators) && returned.0.live 32752
          then returned.0.states 32752 == definetely_white
          else true)
        ≡ true)
collect_rests_example =
    collect_rests 16352 in_bitmap owns outside trace 32 words 32 0 [] heap returned.0 32752
      heap-IsResting refl returned.1

collect_weak_example : all_live (live_inside in_bitmap returned.0.live) returned.0.weak_refs ≡ true
collect_weak_example =
    collect_weak 16352 in_bitmap owns outside trace 32 words 32 0 [] heap returned.0 heap-IsResting
      refl returned.1
