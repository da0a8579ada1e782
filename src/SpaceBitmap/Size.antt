-- ===== src/SpaceBitmap/Size.antt =====
-- How much of the heap a bitmap covers (crates/starlight/src/gc/space_bitmap.rs).
use native.Mathlib.Nat.{pow-suc, div-div-eq-div-mul}
use js.Common.{
  ap₂, ◌↔◌, bit_and_low, ℕ, zero, suc, ◌+◌, ◌-◌, ◌*◌, ◌/◌, ◌%◌, ◌^◌, ◌<◌, ◌≤◌, ◌≡◌, ap, sym, ◌∙◌,
  arith, bit_and, true,
}
use js.Common.{bit_and-digit}
use js.SpaceBitmap.{
  invert64, round_down, round_up, compute_bitmap_size, create, has_address, offset_to_index,
}

-- The number of words that cover `capacity` bytes.
abbrev pub words_needed : ℕ → ℕ → ℕ
words_needed align capacity = (capacity + align * 64 - 1) / (align * 64)

bit_and-div : (k a m : ℕ) → bit_and a m / 2 ^ k ≡ bit_and (a / 2 ^ k) (m / 2 ^ k)
bit_and-div zero a m = ground arith
bit_and-div (suc k) a m =
    let half : (x : ℕ) → x / 2 / 2 ^ k ≡ x / 2 ^ suc k =
      λ x. div-div-eq-div-mul x 2 (2 ^ k) ∙ ap (λ t. x / t) (omega (arith, pow-suc 2 k)) in
    let first : bit_and a m / 2 ≡ bit_and (a / 2) (m / 2) = omega (arith, bit_and-digit a m) in
    sym (half (bit_and a m))
    ∙ ap (λ t. t / 2 ^ k) first
    ∙ bit_and-div k (a / 2) (m / 2)
    ∙ ap₂ bit_and (half a) (half m)

-- The words below the last one of an odd number, and all of an even number.
clear_digit : (x : ℕ) → x < 2 ^ 63 → bit_and x (invert64 1024) / 1024 ≡ x / 1024 - x / 1024 % 2
clear_digit x h = omega (
  arith,
  bit_and-div 10 x (invert64 1024),
  bit_and-digit (x / 1024) (2 ^ 54 - 2),
  bit_and_low 53 (x / 1024 / 2),
)

-- At the alignment of 16 bytes that the collector uses, `compute_bitmap_size` gives a mapping of 8 bytes
-- for each word needed, but rounds the number of words down to an even number: `round_down` takes
-- off one digit of the sum in place of all the digits below it.
pub compute_bitmap_size_lem :
    (capacity : ℕ)
    → capacity < 2 ^ 62
    → compute_bitmap_size 16 capacity
      ≡ (words_needed 16 capacity - words_needed 16 capacity % 2) * 8
unfolding compute_bitmap_size round_up round_down
compute_bitmap_size_lem capacity h = omega (arith, clear_digit (capacity + 1024 - 1) (omega arith))

-- So the new bitmap has a bit for every address of the heap exactly if the heap needs an even number
-- of words.
pub create_covers :
    (heap_begin capacity : ℕ)
    → capacity < 2 ^ 62
    → 0 < capacity
    → heap_begin + capacity ≤ 2 ^ 64
    → ((obj : ℕ)
        → heap_begin ≤ obj
        → obj < heap_begin + capacity
        → has_address 16 (create 16 heap_begin capacity) obj ≡ true)
      ↔ (words_needed 16 capacity % 2 ≡ 0)
unfolding create has_address offset_to_index
create_covers heap_begin capacity h pos room = (
  λ all.
      let last = heap_begin + capacity - 1 in
      let offset : (last + 2 ^ 64 - heap_begin) % 2 ^ 64 ≡ capacity - 1 =
        omega (arith, pos, room) in
      ground (arith, all last, offset, compute_bitmap_size_lem capacity h),
  λ even obj low high.
      let offset : (obj + 2 ^ 64 - heap_begin) % 2 ^ 64 ≡ obj - heap_begin =
        omega (arith, low, high, room) in
      ground (arith, offset, compute_bitmap_size_lem capacity h),
)
