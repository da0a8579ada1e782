-- ===== src/Collector.antt =====
-- A collection: `SlotVisitor` and `Heap::collect_internal` of crates/starlight/src/gc.rs without threads, with
-- `Space::is_heap_pointer`, `mark` and `sweep` of crates/starlight/src/gc/allocation.rs.
-- A bitmap has one bit for each granule of 16 bytes (SpaceBitmap/Bits); here it is its test on addresses, which
-- is the same on a granule: a word anywhere in the granule of a cell is taken for a pointer. The sweep visits
-- each cell at its address, and afterwards a bit is set if it is set for all of its granule. `in_bitmap` is
-- `live_bitmap.has_address`, `outside` what the test of an address reads that the bitmap has not, `owns` as in LargeObjects, and `trace` gives the cells that the `trace` of a cell visits, in their order. The words of the stack
-- are a function from addresses; `roots` are the cells that the constraints visit. Log lines are left out.
pub mod Visit
pub mod Loop
pub mod Reach
pub mod Space
pub mod Roots
pub mod Finish
pub mod Cycle
mod Tests
use js.Common.{
  ℕ, zero, suc, ◌+◌, ◌-◌, ◌*◌, ◌/◌, Bool, true, false, not, ◌&&◌, Option, none, some, List, [], ◌∷◌,
  ◌++◌,
}
use js.Common.{ltb, leb, ◌==◌, if◌then◌else◌}
use js.Block.{Links}
use js.LargeObjects.{
  PreciseAllocation, LargeObjectSpace, contains, from_cell, test_and_set_marked, sweep_large,
}
use js.LocalAllocator.{LocalAllocator}
use js.Sweep.{Sweep, sweep, definetely_white}

abbrev pub possibly_black : ℕ
possibly_black = 0

abbrev pub possibly_grey : ℕ
possibly_grey = 2

-- `set_state`: whether the state was `from`, and the states.
unfoldable pub set_state : (ℕ → ℕ) → ℕ → ℕ → ℕ → Bool × (ℕ → ℕ)
set_state states c from to =
    if states c == from then (true, λ p. if p == c then to else states p) else (false, states)

-- What marking reads and changes of the space, and the queue of the visitor, whose last cell is the
-- first of the list.
pub record Visitor : Type 0 where
  pub live : ℕ → Bool
  pub marked : ℕ → Bool
  pub states : ℕ → ℕ
  pub large : LargeObjectSpace
  pub queue : List ℕ

-- `(*alloc).test_and_set_marked()` on the allocation at an address.
unfoldable pub mark_at : List PreciseAllocation → ℕ → List PreciseAllocation
mark_at [] p = []
mark_at (a ∷ as') p =
    let rest = mark_at as' p in if a.place == p then (test_and_set_marked a).1 ∷ as' else a ∷ rest

-- Whether two addresses have the same bit in a `SpaceBitmap<16>`, whose heap begins at a multiple of 16.
unfoldable pub same_granule : ℕ → ℕ → Bool
same_granule p q = p / 16 == q / 16

unfoldable pub all_from : (ℕ → Bool) → ℕ → ℕ → Bool
all_from s a zero = true
all_from s a (suc n) = s a && all_from s (a + 1) n

-- The bit of the granule of `p` after cells in it were cleared.
unfoldable pub granule_test : (ℕ → Bool) → ℕ → Bool
granule_test s p = all_from s (p / 16 * 16) 16

-- The number of words from `scan` on that are before `end - 8`.
unfoldable pub words_before : ℕ → ℕ → ℕ
words_before scan end = (end - 8 - scan + 7) / 8

module _ (in_bitmap owns : ℕ → Bool) where
  unfoldable pub is_heap_pointer : Visitor → ℕ → Bool
  is_heap_pointer v p = if in_bitmap p then v.live p else contains owns v.large p

  unfoldable pub mark : Visitor → ℕ → Visitor
  mark v p =
      if in_bitmap p
      then record v { marked = λ q. if same_granule q p then true else v.marked q }
      else record v {
        large = record v.large { allocations = mark_at v.large.allocations (from_cell p) };
      }

  -- `visit`, and `visit_raw` alike.
  unfoldable pub visit : Visitor → ℕ → Visitor
  visit v p =
      if not (is_heap_pointer v p)
      then v
      else (let (was_white, states) = set_state v.states p definetely_white possibly_grey in
          if not was_white
          then v
          else (let v' = mark (record v { states = states }) p in
              record v' { queue = p ∷ v'.queue }))

  unfoldable pub visit_all : Visitor → List ℕ → Visitor
  visit_all v [] = v
  visit_all v (p ∷ ps) = visit_all (visit v p) ps

  -- The loop of `add_conservative` over `n` words from `scan` on.
  unfoldable pub scan_words : (ℕ → ℕ) → Visitor → ℕ → ℕ → Visitor
  scan_words words v zero scan = v
  scan_words words v (suc n) scan =
      scan_words words (if is_heap_pointer v (words scan) then visit v (words scan) else v) n
        (scan + 8)

  unfoldable pub add_conservative : (ℕ → ℕ) → Visitor → ℕ → ℕ → Visitor
  add_conservative words v from to =
      if ltb to from
      then scan_words words v (words_before to from) to
      else scan_words words v (words_before from to) from

  module _ (trace : ℕ → List ℕ) where
    -- One round of `process_worklist` at the cell `p` that left the queue.
    unfoldable pub process : Visitor → ℕ → List ℕ → Visitor
    process v p rest =
        visit_all
          (record v {
            queue = rest;
            states = (set_state v.states p possibly_grey possibly_black).1;
          })
          (trace p)

    -- `none` is fuel that does not last.
    unfoldable pub process_worklist : ℕ → Visitor → Option Visitor
    process_worklist zero v = elim v.queue [ [] ↦ some v | _ ∷ _ ↦ none ]
    process_worklist (suc fuel) v = elim v.queue [
      | [] ↦ some v
      | p ∷ rest ↦ process_worklist fuel (process v p rest)
    ]

-- The slot of a weak reference and the cell that it leads to.
pub record WeakSlot : Type 0 where
  pub base : ℕ
  pub value : Option ℕ

-- `mark_bitmap.test`
unfoldable pub test_mark : (ℕ → Bool) → (ℕ → Bool) → (ℕ → Bool) → ℕ → Bool
test_mark in_bitmap outside marked p = if in_bitmap p then marked p else outside p

unfoldable pub update_weak : (ℕ → Bool) → WeakSlot → WeakSlot
update_weak marked w = elim w.value [
  | none ↦ record w { value = none }
  | some val ↦ if marked val then w else record w { value = none }
]

unfoldable pub update_weak_references : (ℕ → Bool) → List WeakSlot → List WeakSlot
update_weak_references marked [] = []
update_weak_references marked (w ∷ ws) = update_weak marked w ∷ update_weak_references marked ws

unfoldable pub reset_weak_references : (ℕ → Bool) → List WeakSlot → List WeakSlot
reset_weak_references marked [] = []
reset_weak_references marked (w ∷ ws) =
    let rest = reset_weak_references marked ws in if marked w.base then w ∷ rest else rest

pub record Heap : Type 0 where
  pub live : ℕ → Bool
  pub marked : ℕ → Bool
  pub states : ℕ → ℕ
  pub large : LargeObjectSpace
  pub links : Links
  -- from `self.allocators` on, along `next`
  pub allocators : List LocalAllocator
  pub free_blocks : List ℕ
  pub weak_refs : List WeakSlot
  pub allocated : ℕ
  pub max_heap_size : ℕ
  pub defers : ℕ
  -- the cells whose destructor ran, the last one first
  pub dropped : List ℕ

module _ (in_bitmap owns : ℕ → Bool) where
  -- The visitor after the stack and the constraints.
  unfoldable pub process_roots : (ℕ → ℕ) → ℕ → ℕ → List ℕ → Heap → Visitor
  process_roots words origin sp roots h =
      let start : Visitor = record {
        live = h.live;
        marked = h.marked;
        states = h.states;
        large = h.large;
        queue = [];
      } in
      visit_all in_bitmap owns (add_conservative in_bitmap owns words start origin sp) roots

module _ (header : ℕ) where
  -- The loop of `Space::sweep`.
  unfoldable pub sweep_allocators :
      List LocalAllocator → Sweep → List ℕ → Sweep × List LocalAllocator × List ℕ
  sweep_allocators [] w free = (w, [], free)
  sweep_allocators (a ∷ as') w free =
      let (w', bs) = sweep header a.current a.unavail w free in
      let (w2, rest, free') = sweep_allocators as' w' bs.returned in
      (w2, record a { current = bs.available; unavail = bs.unavailable } ∷ rest, free')

  -- `Space::sweep`, and `self.allocated` after it.
  unfoldable pub sweep_space : Heap → Heap
  sweep_space h =
      let large = sweep_large h.large h.states in
      let start : Sweep = record {
        links = h.links;
        head = 0;
        live = h.live;
        marked = h.marked;
        states = large.states;
        fully_free = true;
        allocated = large.sweeped;
        dropped = large.dropped ++ h.dropped;
      } in
      let (w, allocators, free) = sweep_allocators h.allocators start h.free_blocks in
      record h {
        live = granule_test w.live;
        marked = granule_test w.marked;
        states = w.states;
        large = large.space;
        links = w.links;
        allocators = allocators;
        free_blocks = free;
        allocated = w.allocated;
        dropped = w.dropped;
      }

  -- `allocated * 1.5`, which is exact for the sizes of a heap.
  unfoldable pub grow : Heap → Heap
  grow h =
      if ltb h.max_heap_size h.allocated
      then record h { max_heap_size = h.allocated * 3 / 2 }
      else h

  unfoldable pub finish : (ℕ → Bool) → (ℕ → Bool) → Heap → Visitor → Heap
  finish in_bitmap outside h v =
      let test = test_mark in_bitmap outside v.marked in
      let weak = reset_weak_references test (update_weak_references test h.weak_refs) in
      grow (
        sweep_space
          (record h { marked = v.marked; states = v.states; large = v.large; weak_refs = weak }))

  module _ (in_bitmap owns outside : ℕ → Bool) (trace : ℕ → List ℕ) where
    unfoldable pub collect_internal : ℕ → (ℕ → ℕ) → ℕ → ℕ → List ℕ → Heap → Option Heap
    collect_internal fuel words origin sp roots h =
        let marking =
          process_worklist in_bitmap owns trace fuel
            (process_roots in_bitmap owns words origin sp roots h) in
        let after : Option Heap = elim marking [
          | none ↦ none
          | some v ↦ some (finish in_bitmap outside h v)
        ] in
        if ltb 0 h.defers then some h else after
