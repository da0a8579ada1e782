-- ===== src/BlockAllocator/Clients.antt =====
-- The clients of the allocator take blocks and give back blocks that they hold:
-- crates/starlight/src/gc/block_allocator.rs.
use js.Common.{ℕ, ◌≡◌, Bool, true, false, none, some}
use js.Common.{◌==◌, if◌then◌else◌}
use js.Block.{Block}
use js.BlockAllocator.{BlockAllocator, new_allocator, get_block, return_block}

pub record Ownership : Type 0 where
  pub allocator : BlockAllocator
  pub held : ℕ → Bool

pub data Call : Ownership → Ownership → Type 0 where
  take_call :
      (w : Ownership) (failures b : ℕ)
      → (get_block failures w.allocator).0 ≡ some b
      → Call w (record {
        allocator = (get_block failures w.allocator).1;
        held = λ p. if p == b then true else w.held p;
      })
  refuse_call :
      (w : Ownership) (failures : ℕ)
      → (get_block failures w.allocator).0 ≡ none
      → Call w (record w { allocator = (get_block failures w.allocator).1 })
  return_call :
      (w : Ownership) (b : ℕ)
      → w.held b ≡ true
      → Call w (record {
        allocator = return_block w.allocator b;
        held = λ p. if p == b then false else w.held p;
      })

pub data Calls (start : Ownership) : Ownership → Type 0 where
  here : Calls start start
  next : {v w : Ownership} → Calls start v → Call v w → Calls start w

-- The allocator as `new` leaves it, on a mapping of `size` bytes at `start`; nobody holds a block.
abbrev pub initial : (ℕ → Block) → ℕ → ℕ → Ownership
initial headers start size = record {
  allocator = new_allocator headers start size;
  held = λ p. false;
}
