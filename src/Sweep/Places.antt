-- ===== src/Sweep/Places.antt =====
-- `LocalAllocator::sweep` (crates/starlight/src/gc/allocation.rs) and the lists of blocks of an allocator.
use js.Common.{ℕ, ap, ◌≡◌, ◌∙◌, arith, refl, Bool, true, false, not, ◌&&◌, List, [], ◌∷◌, ◌++◌}
use js.Common.{◌==◌, if◌then◌else◌, Bool-cases, inl, inr}
use js.Block.{Block}
use js.Block.Free.{IsFree, IsAbsent}
use js.Sweep.{Sweep, Blocks, walk, sweep_block, place_block, sweep_blocks, sweep}
use js.Sweep.Cells.{mem, is_distinct, freed, keeps_none, IsSwept, swept}
use js.Sweep.Survive.{mem-append, apart, survives, all_cells, sweep_blocks_lem}

unfoldable pub addresses : List Block → List ℕ
addresses [] = []
addresses (b ∷ bs) = b.address ∷ addresses bs

unfoldable pub keeps_all : (ℕ → Bool) → List ℕ → Bool
keeps_all keep [] = true
keeps_all keep (c ∷ cs) = keep c && keeps_all keep cs

-- The addresses of the blocks that the test picks, the last one first, before others.
unfoldable pub picked : (Block → Bool) → List Block → List ℕ → List ℕ
picked test [] xs = xs
picked test (b ∷ bs) xs = picked test bs (if test b then b.address ∷ xs else xs)

unfoldable is_nil : List ℕ → Bool
is_nil [] = true
is_nil (x ∷ xs) = false

freed_nil :
    (keep : ℕ → Bool) (cs xs : List ℕ)
    → is_nil (freed keep cs xs) ≡ (is_nil xs && keeps_all keep cs)
unfolding is_nil freed keeps_all
freed_nil keep [] xs = ground arith
freed_nil keep (c ∷ cs) xs = elim (Bool-cases (keep c)) [
  | inl e ↦ rw e (freed_nil keep cs xs)
  | inr e ↦ rw e (freed_nil keep cs (c ∷ xs) ∙ ground arith)
]

-- The head is null exactly if nothing is free.
head_of : (links : ℕ → ℕ) (head : ℕ) (xs : List ℕ) → IsFree links head xs → (head == 0) ≡ is_nil xs
unfolding IsFree is_nil
head_of links head [] f = ground (arith, f)
head_of links head (x ∷ xs) (a, b, c) = elim (Bool-cases (head == 0)) [
  | inl e ↦ absurd (b (ground (arith, a, e)))
  | inr e ↦ e
]

module _ (header : ℕ) (keep : ℕ → Bool) where
  -- Every cell survives, or there is none.
  unfoldable pub is_full : Block → Bool
  is_full b = keeps_all keep (walk header b)

  -- Some cell is free and none survives.
  unfoldable pub is_unused : Block → Bool
  is_unused b = not (keeps_all keep (walk header b)) && keeps_none keep (walk header b)

  -- Some cell is free and some survives.
  unfoldable pub is_partly_used : Block → Bool
  is_partly_used b = not (keeps_all keep (walk header b)) && not (keeps_none keep (walk header b))

  -- The blocks `bs` sorted into the lists `r` make `r'`.
  record AreSorted (bs : List Block) (r r' : Blocks) : Type 0 where
    returned : r'.returned ≡ picked is_unused bs r.returned
    available : addresses r'.available ≡ picked is_partly_used bs (addresses r.available)
    unavailable : addresses r'.unavailable ≡ picked is_full bs (addresses r.unavailable)

  one_block :
      (b : Block) (w : Sweep)
      → is_distinct (walk header b) ≡ true
      → mem 0 (walk header b) ≡ false
      → ((p : ℕ) → mem p (walk header b) ≡ true → survives header w p ≡ keep p)
      → IsSwept b.cell_size keep
          (walk header b)
          []
          (record w { head = 0; fully_free = true })
          (sweep_block header b w)
  unfolding sweep_block IsFree IsAbsent
  one_block b w d z k =
      swept b.cell_size keep (walk header b) [] (record w { head = 0; fully_free = true }) d z k
        (λ p m. tt) refl

  place_one :
      (b : Block) (w : Sweep) (r : Blocks)
      → (w.head == 0) ≡ is_full b
      → w.fully_free ≡ keeps_none keep (walk header b)
      → AreSorted (b ∷ []) r (place_block header b w r)
  unfolding place_block addresses picked is_full is_unused is_partly_used
  place_one b w r e f = record {
    returned = ground (arith, e, f);
    available = ground (arith, e, f);
    unavailable = ground (arith, e, f);
  }

  sort_blocks :
      (bs : List Block) (w : Sweep) (r : Blocks)
      → is_distinct (all_cells header bs) ≡ true
      → mem 0 (all_cells header bs) ≡ false
      → ((p : ℕ) → mem p (all_cells header bs) ≡ true → survives header w p ≡ keep p)
      → AreSorted bs r (sweep_blocks header bs w r).1
  unfolding sweep_blocks all_cells mem picked addresses is_full is_nil
  sort_blocks [] w r d z k = record { returned = refl; available = refl; unavailable = refl }
  sort_blocks (b ∷ bs) w r d z k =
      let cs = walk header b in
      let (d1, d2, far) = apart cs (all_cells header bs) d in
      let z' = mem-append 0 cs (all_cells header bs) in
      let one =
        one_block b w d1 (ground (arith, z, z'))
          (λ p m. k p (ground (arith, mem-append p cs (all_cells header bs), m))) in
      let w' = sweep_block header b w in
      let full : (w'.head == 0) ≡ is_full b =
        head_of w'.links w'.head (freed keep cs []) one.free ∙ freed_nil keep cs [] in
      let first = place_one b w' r full one.fully_free in
      let rest = sort_blocks bs w' (place_block header b w' r) d2 (ground (arith, z, z')) (λ p m.
        let own = mem-append p cs (all_cells header bs) in
        ground (arith, k p, own, m, far p, one.live p, one.marked p)) in
      record {
        returned = rest.returned ∙ ap (picked is_unused bs) first.returned;
        available = rest.available ∙ ap (picked is_partly_used bs) first.available;
        unavailable = rest.unavailable ∙ ap (picked is_full bs) first.unavailable;
      }

-- After the sweep of an allocator whose blocks share no cell, each block is in the list that its cells call
-- for, where a cell survives if it was live and marked: the blocks with free cells of which none survives go back to the
-- block allocator, those with free cells of which some survive are the ones to allocate from, and those in which
-- every cell survives are the full ones; in each list the last block swept comes first.
pub sweep_places :
    (header : ℕ) (current unavail : List Block) (w : Sweep) (free_blocks : List ℕ)
    → is_distinct (all_cells header current ++ all_cells header unavail) ≡ true
    → mem 0 (all_cells header current ++ all_cells header unavail) ≡ false
    → let r = (sweep header current unavail w free_blocks).1 in
      let keep = survives header w in
      let unused = is_unused header keep in
      let partly = is_partly_used header keep in
      let full = is_full header keep in
      (r.returned ≡ picked unused unavail (picked unused current free_blocks))
      × (addresses r.available ≡ picked partly unavail (picked partly current []))
      × (addresses r.unavailable ≡ picked full unavail (picked full current []))
unfolding sweep addresses
sweep_places header current unavail w free_blocks d z =
    let (d1, d2, far) = apart (all_cells header current) (all_cells header unavail) d in
    let z' = mem-append 0 (all_cells header current) (all_cells header unavail) in
    let keep = survives header w in
    let start : Blocks = record { available = []; unavailable = []; returned = free_blocks } in
    let first = sort_blocks header keep current w start d1 (ground (arith, z, z')) (λ p m. refl) in
    let (w1, r1) = sweep_blocks header current w start in
    let second = sort_blocks header keep unavail w1 r1 d2 (ground (arith, z, z')) (λ p m.
      let one = sweep_blocks_lem header current w start d1 (ground (arith, z, z')) p in
      ground (arith, one.0, one.1, far p, m)) in
    (
      second.returned ∙ ap (picked (is_unused header keep) unavail) first.returned,
      second.available ∙ ap (picked (is_partly_used header keep) unavail) first.available,
      second.unavailable ∙ ap (picked (is_full header keep) unavail) first.unavailable,
    )
