-- ===== src/BlockAllocator/Exchange.antt =====
-- The loop of `build_block` (crates/starlight/src/gc/block_allocator.rs) without its spurious failures.
use js.Common.{ℕ, zero, suc, ap, ◌+◌, ◌%◌, ◌^◌, ◌<◌, ◌≡◌, ◌∙◌, refl, arith, true, false, none, some}
use js.Common.{ltb, if◌then◌else◌}
use js.Block.{block_size}
use js.BlockAllocator.{exchange_loop}

-- The spurious failures of the exchange change nothing.
exchange_loop_lem :
    (failures bound data' : ℕ)
    → data' + block_size < 2 ^ 64
    → exchange_loop failures bound data' data'
      ≡ (if ltb bound (data' + block_size) then (none, data') else (some data', data' + block_size))
unfolding exchange_loop
exchange_loop_lem zero bound data' h =
    ap (λ t. if ltb bound t then (none, data') else (some data', t)) (omega (arith, h))
exchange_loop_lem (suc n) bound data' h =
    let same : (data' + block_size) % 2 ^ 64 ≡ data' + block_size = omega (arith, h) in
    rw (same, exchange_loop_lem n bound data' h) (ground arith)

pub exchange_refused :
    (failures bound data' : ℕ)
    → data' + block_size < 2 ^ 64
    → ltb bound (data' + block_size) ≡ true
    → exchange_loop failures bound data' data' ≡ (none, data')
exchange_refused failures bound data' h over =
    exchange_loop_lem failures bound data' h ∙ (rw over refl)

pub exchange_taken :
    (failures bound data' : ℕ)
    → data' + block_size < 2 ^ 64
    → ltb bound (data' + block_size) ≡ false
    → exchange_loop failures bound data' data' ≡ (some data', data' + block_size)
exchange_taken failures bound data' h under =
    exchange_loop_lem failures bound data' h ∙ (rw under refl)
