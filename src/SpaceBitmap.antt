-- ===== src/SpaceBitmap.antt =====
-- The mark bitmap of the collector: crates/starlight/src/gc/space_bitmap.rs, with `round_down` and
-- `round_up` of crates/starlight/src/gc.rs.
-- `usize` and `u64` have 64 bits. The words of the mapping are a function from their index; the
-- parameter `align` is the const generic ALIGN. An address is at least `heap_begin`, as the
-- `debug_assert`s demand, so `wrapping_sub` does not wrap.
pub mod Bits
pub mod Size
pub mod Race
mod Tests
use js.Common.{
  ℕ, ◌+◌, ◌-◌, ◌*◌, ◌/◌, ◌%◌, ◌^◌, bit_and, bit_or, Bool, true, false, not, ◌==◌, ltb,
  if◌then◌else◌,
}

-- `!n` on a `u64` or `usize`
abbrev pub invert64 : ℕ → ℕ
invert64 n = 2 ^ 64 - 1 - n

unfoldable pub round_down : ℕ → ℕ → ℕ
round_down x n = bit_and x (invert64 n)

unfoldable pub round_up : ℕ → ℕ → ℕ
round_up x n = round_down (x + n - 1) n

abbrev pub bits_per_intptr : ℕ
bits_per_intptr = 64

pub record SpaceBitmap : Type 0 where
  pub bitmap_words : ℕ → ℕ
  pub bitmap_size : ℕ
  pub heap_begin : ℕ
  pub heap_limit : ℕ

module _ (align : ℕ) where
  unfoldable pub index_to_offset : ℕ → ℕ
  index_to_offset index = index * align * bits_per_intptr

  unfoldable pub offset_to_index : ℕ → ℕ
  offset_to_index offset = offset / align / bits_per_intptr

  unfoldable pub offset_bit_index : ℕ → ℕ
  offset_bit_index offset = offset / align % bits_per_intptr

  unfoldable pub offset_to_mask : ℕ → ℕ
  offset_to_mask offset = 2 ^ offset_bit_index offset

  unfoldable pub heap_size : SpaceBitmap → ℕ
  heap_size b = index_to_offset (b.bitmap_size / 8)

  -- `assert_eq!(self.heap_size(), bytes)` is the second component.
  unfoldable pub set_heap_size : SpaceBitmap → ℕ → SpaceBitmap × Bool
  set_heap_size b bytes =
      let b' : SpaceBitmap = record b { bitmap_size = offset_to_index bytes * 8 } in
      (b', heap_size b' == bytes)

  unfoldable pub has_address : SpaceBitmap → ℕ → Bool
  has_address b obj =
      ltb (offset_to_index ((obj + 2 ^ 64 - b.heap_begin) % 2 ^ 64)) (b.bitmap_size / 8)

  unfoldable pub test : SpaceBitmap → ℕ → Bool
  test b obj =
      let offset = obj - b.heap_begin in
      not (bit_and (b.bitmap_words (offset_to_index offset)) (offset_to_mask offset) == 0)

  abbrev pub write_word : SpaceBitmap → ℕ → ℕ → SpaceBitmap
  write_word b index w = record b { bitmap_words = λ i. if i == index then w else b.bitmap_words i }

  -- The new bitmap, and whether the bit was set before.
  unfoldable pub modify : Bool → SpaceBitmap → ℕ → SpaceBitmap × Bool
  modify set_bit b obj =
      let offset = obj - b.heap_begin in
      let index = offset_to_index offset in
      let mask = offset_to_mask offset in
      let old_word = b.bitmap_words index in
      let b' : SpaceBitmap =
        (if set_bit
          then (if bit_and old_word mask == 0 then write_word b index (bit_or old_word mask) else b)
          else write_word b index (bit_and old_word (invert64 mask))) in
      (b', not (bit_and old_word mask == 0))

  unfoldable pub set : SpaceBitmap → ℕ → SpaceBitmap × Bool
  set b obj = modify true b obj

  unfoldable pub clear : SpaceBitmap → ℕ → SpaceBitmap × Bool
  clear b obj = modify false b obj

  unfoldable pub compute_bitmap_size : ℕ → ℕ
  compute_bitmap_size capacity =
      let bytes_covered_per_word = align * bits_per_intptr in
      round_up capacity bytes_covered_per_word / bytes_covered_per_word * 8

  unfoldable pub compute_heap_size : ℕ → ℕ
  compute_heap_size bitmap_bytes = bitmap_bytes * 8 * align

  -- The mapping is zeroed.
  unfoldable pub create : ℕ → ℕ → SpaceBitmap
  create heap_begin heap_capacity = record {
    bitmap_words = λ _. 0;
    bitmap_size = compute_bitmap_size heap_capacity;
    heap_begin = heap_begin;
    heap_limit = heap_begin + heap_capacity;
  }
