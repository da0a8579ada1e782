-- ===== src/BlockAllocator/Available.antt =====
-- How many blocks are left: crates/starlight/src/gc/block_allocator.rs.
use js.Common.{
  ℕ, suc, ◌+◌, ◌-◌, ◌/◌, ◌^◌, ◌≤◌, ◌<◌, ◌≡◌, refl, arith, Bool, true, false, not, Option, none,
  some, List, [], ◌∷◌,
}
use js.Common.{ltb, ◌==◌, Bool-cases, inl, inr}
use js.Block.{block_size}
use js.BlockAllocator.{BlockAllocator, build_block, get_from, get_block, available_blocks}
use js.BlockAllocator.Exchange.{exchange_refused, exchange_taken}

abbrev pub is_found : Option ℕ → Bool
is_found none = false
is_found (some b) = true

available_from :
    (failures : ℕ) (a : BlockAllocator) (xs : List ℕ)
    → a.free_blocks ≡ xs
    → a.data' ≤ a.data_bound
    → a.data_bound + block_size < 2 ^ 64
    → (is_found (get_from failures a xs).0 ≡ not (available_blocks a == 0))
      × (available_blocks (get_from failures a xs).1 ≡ available_blocks a - 1)
unfolding get_from build_block available_blocks
available_from failures a (x ∷ xs) e le h = rw e (ground arith, omega arith)
available_from failures a [] e le h =
    let small : a.data' + block_size < 2 ^ 64 = omega (arith, le, h) in
    elim (Bool-cases (ltb a.data_bound (a.data' + block_size))) [
      | inl over ↦
          let close : a.data_bound < a.data' + block_size = ground (arith, over) in
          let stayed = exchange_refused failures a.data_bound a.data' small over in
          let none_left : (a.data_bound - a.data') / block_size ≡ 0 = omega (arith, close) in
          rw (stayed, e, none_left) (refl, refl)
      | inr under ↦
          let room : a.data' + block_size ≤ a.data_bound = ground (arith, under) in
          let took = exchange_taken failures a.data_bound a.data' small under in
          let one_less : (a.data_bound - a.data') / block_size
              ≡ suc ((a.data_bound - (a.data' + block_size)) / block_size) =
            omega (arith, room) in
          rw (took, e, one_less) (ground arith, omega arith)
    ]

-- While `data` is not behind `data_bound`, and these lie away from the end of the address space: `get_block`
-- returns a block exactly if `available_blocks` is not 0, however often the exchange fails, and then one
-- block less is available.
pub available_blocks_lem :
    (failures : ℕ) (a : BlockAllocator)
    → a.data' ≤ a.data_bound
    → a.data_bound + block_size < 2 ^ 64
    → (is_found (get_block failures a).0 ≡ not (available_blocks a == 0))
      × (available_blocks (get_block failures a).1 ≡ available_blocks a - 1)
unfolding get_block
available_blocks_lem failures a le h = available_from failures a a.free_blocks refl le h
