-- ===== src/Sweep/Tests.antt =====
-- A sweep of one block with two cells: crates/starlight/src/gc/allocation.rs.
use js.Common.{◌≡◌, refl, true, not, ◌&&◌, ◌||◌, [], ◌∷◌, ◌++◌}
use js.Common.{◌==◌, if◌then◌else◌}
use js.Block.{Block, cell, cell_count, begin}
use js.Sweep.{Sweep, walk, walk_from, sweep}
use js.Sweep.Cells.{mem, is_distinct}
use js.Sweep.Survive.{survives, all_cells, sweep_lem}
use js.Sweep.Places.{addresses, picked, is_full, is_unused, is_partly_used, sweep_places}

-- Its cells are at 32736 and 32752.
abbrev block : Block
block = record { address = 16384; next = 0; allocated = true; cell_size = 16; free = 0 }

-- Both cells are live, and the first is marked.
abbrev before : Sweep
before = record {
  links = λ p. 0;
  head = 0;
  live = λ p. p == 32736 || p == 32752;
  marked = λ p. p == 32736;
  states = λ p. 0;
  fully_free = true;
  allocated = 0;
  dropped = [];
}

sweep_lem_example :
    let w' = (sweep 16352 (block ∷ []) [] before []).0 in
    let own = mem 32752 (all_cells 16352 (block ∷ []) ++ all_cells 16352 []) in
    (w'.live 32752 ≡ (if own then survives 16352 before 32752 else before.live 32752))
    × (w'.marked 32752 ≡ (before.marked 32752 && not (own && before.live 32752)))
unfolding is_distinct mem walk walk_from cell cell_count begin all_cells
sweep_lem_example = sweep_lem 16352 (block ∷ []) [] before [] refl refl 32752

sweep_places_example :
    let r = (sweep 16352 (block ∷ []) [] before []).1 in
    let keep = survives 16352 before in
    (r.returned ≡ picked (is_unused 16352 keep) [] (picked (is_unused 16352 keep) (block ∷ []) []))
    × (addresses r.available
        ≡ picked
            (is_partly_used 16352 keep)
            []
            (picked (is_partly_used 16352 keep) (block ∷ []) []))
    × (addresses r.unavailable
        ≡ picked (is_full 16352 keep) [] (picked (is_full 16352 keep) (block ∷ []) []))
unfolding is_distinct mem walk walk_from cell cell_count begin all_cells
sweep_places_example = sweep_places 16352 (block ∷ []) [] before [] refl refl
