-- ===== src/LocalAllocator/Ready.antt =====
-- The free cells of an allocator, in the order in which `allocate` gives them:
-- crates/starlight/src/gc/allocation.rs.
use mathlib.Core.Path.{subst}
use mathlib.Core.List.{append-nil}
use js.Common.{
  ℕ, suc, sym, ◌%◌, ◌^◌, ◌≤◌, ◌<◌, ◌≡◌, ◌∙◌, refl, arith, true, false, some, List, [], ◌∷◌, ◌++◌,
}
use js.Common.{◌==◌}
use js.Block.{Block, Links, allocate, init, cell, cell_count, is_aligned}
use js.Block.Cells.{IsPlaced}
use js.Block.Free.{IsFree, get-IsFree, get_empty, init-IsFree, cells_down}
use js.BlockAllocator.{BlockAllocator, get_block}
use js.LocalAllocator.{
  Memory, renew_with, renew, give, allocate_next, allocate_from, allocate_in, allocate_cell,
}

-- The blocks all have free cells, and these are the free cells.
pub data IsRest (links : Links) : List Block → List ℕ → Type 0 where
  no_more : IsRest links [] []
  more :
      {b : Block} {bs : List Block} {free : List ℕ} (y : ℕ) (ys zs : List ℕ)
      → IsFree links b.free (y ∷ ys)
      → IsRest links bs zs
      → free ≡ y ∷ (ys ++ zs)
      → IsRest links (b ∷ bs) free

-- The blocks behind the first all have free cells, and these are the free cells of all.
pub data IsReady (links : Links) : List Block → List ℕ → Type 0 where
  empty : IsReady links [] []
  front :
      {b : Block} {bs : List Block} {free : List ℕ} (ys zs : List ℕ)
      → IsFree links b.free ys
      → IsRest links bs zs
      → free ≡ ys ++ zs
      → IsReady links (b ∷ bs) free

module _ (header failures : ℕ) where
  give-IsReady :
      (m : Memory) (b : Block) (bs : List Block) (y : ℕ) (ys zs : List ℕ)
      → IsFree m.links b.free (y ∷ ys)
      → IsRest m.links bs zs
      → ((give header failures m b bs).0 ≡ y)
        × IsReady
            (give header failures m b bs).1.links
            (give header failures m b bs).1.local.current
            (ys ++ zs)
  unfolding allocate
  give-IsReady m b bs y ys zs f r =
      let taken = get-IsFree m.links b.free y ys f in (taken.0, front ys zs taken.1 r refl)

  take_from :
      (m : Memory) (b : Block) (bs : List Block) (x : ℕ) (xs ys zs : List ℕ)
      → IsFree m.links b.free ys
      → IsRest m.links bs zs
      → x ∷ xs ≡ ys ++ zs
      → (m' : Memory) × (allocate_from header failures m b bs ≡ some (x, m'))
        × IsReady m'.links m'.local.current xs
        × (m'.links ≡ m.links)
        × (m'.blocks ≡ m.blocks)
  unfolding allocate_from allocate_next IsFree allocate
  take_from m b bs x xs (y ∷ ys) zs f r e =
      let (found, ready) = give-IsReady m b bs y ys zs f r in
      let same : y ≡ x = ground (arith, e) in
      let rest : ys ++ zs ≡ xs = ground (arith, e) in
      let some_cell : (y == 0) ≡ false = ground (arith, f.1) in
      (
        (give header failures m b bs).1,
        rw (found, some_cell, same) refl,
        subst (IsReady m.links (give header failures m b bs).1.local.current) rest ready,
        refl,
        refl,
      )
  take_from m b [] x xs [] zs f no_more e = absurd (ground (arith, e))
  take_from m b (c ∷ cs) x xs [] zs f (more z zs' ws f' r' e') e =
      let passed : Memory = record m {
        local = record m.local { unavail = (allocate m.links b).1 ∷ m.local.unavail };
      } in
      let none_left = get_empty m.links b.free f in
      let (found, ready) = give-IsReady passed c cs z zs' ws f' r' in
      let same : z ≡ x = ground (arith, e, e') in
      let rest : zs' ++ ws ≡ xs = ground (arith, e, e') in
      (
        (give header failures passed c cs).1,
        rw (none_left, found, same) refl,
        subst (IsReady m.links (give header failures passed c cs).1.local.current) rest ready,
        refl,
        refl,
      )

  take_in :
      (m : Memory) (blocks : List Block) (x : ℕ) (xs : List ℕ)
      → IsReady m.links blocks (x ∷ xs)
      → (m' : Memory) × (allocate_in header failures m blocks ≡ some (x, m'))
        × IsReady m'.links m'.local.current xs
        × (m'.links ≡ m.links)
        × (m'.blocks ≡ m.blocks)
  unfolding allocate_in
  take_in m [] x xs r = elim r [ ]
  take_in m (b ∷ bs) x xs (front ys zs f r e) = take_from m b bs x xs ys zs f r e

-- While the blocks of an allocator have free cells, and all its blocks behind the first have some: `allocate`
-- returns the first of the free cells, the others stay free in their order, and no free entry and no block of
-- the heap changes.
pub allocate_cell_lem :
    (header failures : ℕ) (m : Memory) (x : ℕ) (xs : List ℕ)
    → IsReady m.links m.local.current (x ∷ xs)
    → (m' : Memory) × (allocate_cell header failures m ≡ some (x, m'))
      × IsReady m'.links m'.local.current xs
      × (m'.links ≡ m.links)
      × (m'.blocks ≡ m.blocks)
unfolding allocate_cell
allocate_cell_lem header failures m x xs r = take_in header failures m m.local.current x xs r

-- The block at `at'` with the cell size of the allocator.
abbrev pub sized : Memory → BlockAllocator → ℕ → Block
sized m blocks at' = record (blocks.headers at') { cell_size = m.local.cell_size }

renew_lem :
    (header failures : ℕ) (m : Memory) (at' n : ℕ) (blocks : BlockAllocator)
    → get_block failures m.blocks ≡ (some at', blocks)
    → IsPlaced header (sized m blocks at')
    → 16 ≤ m.local.cell_size
    → m.local.cell_size < 2 ^ 16
    → is_aligned m.local.cell_size 16 ≡ true
    → cell_count header (sized m blocks at') ≡ suc n
    → (b : Block) × (m' : Memory) × (renew header failures m ≡ some (b, m'))
      × IsFree m'.links b.free
          (cell header (sized m blocks at') n ∷ cells_down header (sized m blocks at') n)
      × (m'.blocks ≡ blocks)
unfolding renew renew_with cells_down
renew_lem header failures m at' n blocks g p l u a c =
    let size = m.local.cell_size in
    let word : size % 2 ^ 16 ≡ size = omega (arith, u) in
    let made = init header m.links (blocks.headers at') size in
    let (asserted, _, _, free) = init-IsFree header m.links (blocks.headers at') size p l u a in
    (
      made.2,
      record { links = made.1; blocks = blocks; local = record m.local { current = made.2 ∷ [] } },
      rw (g, word, asserted) refl,
      subst (λ k. IsFree made.1 made.2.free (cells_down header (sized m blocks at') k)) c free,
      refl,
    )

-- Where an allocator for cells of a size that `init` accepts has no free cell and the heap has a block, whose place in memory is sound and which
-- has room for a cell: `allocate` makes it the current block and returns its last cell, and the other
-- cells of the block are then the free ones.
pub allocate_cell_new :
    (header failures : ℕ) (m : Memory) (at' n : ℕ) (blocks : BlockAllocator)
    → IsReady m.links m.local.current []
    → get_block failures m.blocks ≡ (some at', blocks)
    → IsPlaced header (sized m blocks at')
    → 16 ≤ m.local.cell_size
    → m.local.cell_size < 2 ^ 16
    → is_aligned m.local.cell_size 16 ≡ true
    → cell_count header (sized m blocks at') ≡ suc n
    → (m' : Memory) × (allocate_cell header failures m
        ≡ some (cell header (sized m blocks at') n, m'))
      × IsReady m'.links m'.local.current (cells_down header (sized m blocks at') n)
      × (m'.blocks ≡ blocks)
unfolding allocate_cell allocate_in allocate_from allocate_next allocate IsFree
allocate_cell_new header failures m at' n blocks r g p l u a c = from m.local.current r
  where
    others : List ℕ
    others = cells_down header (sized m blocks at') n

    last : ℕ
    last = cell header (sized m blocks at') n

    from :
        (bs : List Block)
        → IsReady m.links bs []
        → (m' : Memory) × (allocate_in header failures m bs
            ≡ some (cell header (sized m blocks at') n, m'))
          × IsReady m'.links m'.local.current (cells_down header (sized m blocks at') n)
          × (m'.blocks ≡ blocks)
    from [] empty =
        let (b, m', e, f, same) = renew_lem header failures m at' n blocks g p l u a c in
        let (m2, e2, ready, kept, same2) =
          take_from header failures m' b [] last others (last ∷ others) [] f no_more
            (sym (append-nil (last ∷ others))) in
        (m2, rw e e2, ready, same2 ∙ same)
    from (b ∷ bs) (front (y ∷ ys) zs f rest e) = absurd (ground (arith, e))
    from (b ∷ []) (front [] zs f no_more e) =
        let passed : Memory = record m {
          local = record m.local { unavail = (allocate m.links b).1 ∷ m.local.unavail };
        } in
        let (b', m', e1, f', same) = renew_lem header failures passed at' n blocks g p l u a c in
        let (found, ready) = give-IsReady header failures m' b' [] last others [] f' no_more in
        (
          (give header failures m' b' []).1,
          rw (get_empty m.links b.free f, e1, found) refl,
          subst (IsReady m'.links (give header failures m' b' []).1.local.current)
              (append-nil others) ready,
          same,
        )
    from (b ∷ (d ∷ ds)) (front [] zs f (more z zs' ws f' r' e') e) = absurd (ground (arith, e, e'))
