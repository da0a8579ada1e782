-- ===== src/LargeObjects/Marks.antt =====
-- The marks of large objects: crates/starlight/src/gc/large_object_space.rs.
use js.Common.{ℕ, sym, ◌≡◌, refl, arith, List, [], ◌∷◌, ◌++◌, ◌∙◌}
use js.Common.{if◌then◌else◌, Bool-cases, inl, inr}
use mathlib.Core.List.{append_assoc, append-nil}
use js.LargeObjects.{
  PreciseAllocation, LargeObjectSpace, Swept, sweep_one, retain_one, retain_all, sweep_large,
}

-- The allocations that are marked, in their order.
unfoldable pub marked_ones : List PreciseAllocation → List PreciseAllocation
marked_ones [] = []
marked_ones (a ∷ as') = if a.is_marked then a ∷ marked_ones as' else marked_ones as'

retain_one_lem :
    (w : Swept) (a : PreciseAllocation)
    → (retain_one w a).space.allocations
      ≡ (if a.is_marked then w.space.allocations ++ (a ∷ []) else w.space.allocations)
unfolding retain_one sweep_one
retain_one_lem w a = ground arith

retain_all_lem :
    (w : Swept) (as' : List PreciseAllocation)
    → (retain_all w as').space.allocations ≡ w.space.allocations ++ marked_ones as'
unfolding retain_all marked_ones
retain_all_lem w [] = sym (append-nil w.space.allocations)
retain_all_lem w (a ∷ as') =
    let rest = retain_all_lem (retain_one w a) as' in
    let one = retain_one_lem w a in
    elim (Bool-cases a.is_marked) [
      | inl m ↦
          ground (arith, rest, one, append_assoc w.space.allocations (a ∷ []) (marked_ones as'))
      | inr m ↦ ground (arith, rest, one)
    ]

marked_ones-again : (as' : List PreciseAllocation) → marked_ones (marked_ones as') ≡ marked_ones as'
unfolding marked_ones
marked_ones-again [] = refl
marked_ones-again (a ∷ as') = ground (arith, marked_ones-again as')

-- A sweep keeps the allocations that are marked, in their order, and their marks. So the next sweep keeps
-- them all, whether something marked them since or not.
pub never_freed :
    (s : LargeObjectSpace) (states states' : ℕ → ℕ)
    → ((sweep_large s states).space.allocations ≡ marked_ones s.allocations)
      × ((sweep_large (sweep_large s states).space states').space.allocations
          ≡ marked_ones s.allocations)
unfolding sweep_large
never_freed s states states' =
    let first = retain_all_lem (start s states) s.allocations in
    let kept = sweep_large s states in
    (
      first,
      retain_all_lem (start kept.space states') kept.space.allocations
          ∙ rw first (marked_ones-again s.allocations),
    )
  where
    start : LargeObjectSpace → (ℕ → ℕ) → Swept
    start s states = record {
      space = record s { allocations = [] };
      states = states;
      sweeped = 0;
      dropped = [];
    }
