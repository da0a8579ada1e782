-- ===== src/SpaceBitmap/Bits.antt =====
-- The bitmap as a set of addresses (crates/starlight/src/gc/space_bitmap.rs).
use native.Mathlib.Nat.{pow-le-pow_right}
use js.Common.{ℕ, ◌-◌, ◌/◌, ◌^◌, ◌<◌, ◌≡◌, ◌∙◌, arith, refl}
use js.Common.{
  bit, bit-and, bit-or, bit-pow, bit-complement, bit_and-pow, ◌==◌, if◌then◌else◌, Bool, ◌&&◌,
}
use js.SpaceBitmap.{SpaceBitmap, offset_to_index, offset_bit_index, offset_to_mask, test, modify}

mask_fits : (m : ℕ) → m < 64 → 2 ^ m < 2 ^ 64
mask_fits m h = omega (arith, pow-le-pow_right {n = 2} (omega arith) {i = m} {j = 63} (omega arith))

module _ (align : ℕ) where
  abbrev word_of : SpaceBitmap → ℕ → ℕ
  word_of b obj = offset_to_index align (obj - b.heap_begin)

  abbrev bit_of : SpaceBitmap → ℕ → ℕ
  bit_of b obj = offset_bit_index align (obj - b.heap_begin)

  bit_of_fits : (b : SpaceBitmap) (obj : ℕ) → bit_of b obj < 64
  unfolding offset_bit_index
  bit_of_fits b obj = omega arith

  test-bit :
      (b : SpaceBitmap) (obj : ℕ)
      → test align b obj ≡ bit (bit_of b obj) (b.bitmap_words (word_of b obj))
  unfolding test offset_to_mask
  test-bit b obj = bit_and-pow (bit_of b obj) (b.bitmap_words (word_of b obj))

  -- The word that `modify` leaves, digit by digit.
  modify-bit :
      (v : Bool) (b : SpaceBitmap) (obj i k : ℕ)
      → k < 64
      → bit k ((modify align v b obj).0.bitmap_words i)
        ≡ (if i == word_of b obj && k == bit_of b obj then v else bit k (b.bitmap_words i))
  unfolding modify offset_to_mask
  modify-bit v b obj i k h =
      let m = bit_of b obj in
      let w = b.bitmap_words (word_of b obj) in
      ground (
        arith,
        bit-or k w (2 ^ m),
        bit-and k w (2 ^ 64 - 1 - 2 ^ m),
        bit-pow k m,
        bit-complement 64 k (2 ^ m) (mask_fits m (bit_of_fits b obj)) h,
        bit_and-pow m w,
      )

  modify-heap_begin :
      (v : Bool) (b : SpaceBitmap) (obj : ℕ) → (modify align v b obj).0.heap_begin ≡ b.heap_begin
  unfolding modify
  modify-heap_begin v b obj = ground arith

  one_granule :
      (b : SpaceBitmap) (obj other : ℕ)
      → (word_of b other == word_of b obj && bit_of b other == bit_of b obj)
        ≡ ((other - b.heap_begin) / align == (obj - b.heap_begin) / align)
  unfolding offset_to_index offset_bit_index
  one_granule b obj other = ground arith

  -- After `set` or `clear` of an address, the tests of the addresses in the same granule of `align`
  -- bytes give the new bit, those of all other addresses what they gave before; the call returns what
  -- the test gave before.
  pub test-modify :
      (v : Bool) (b : SpaceBitmap) (obj other : ℕ)
      → let (b', was_set) = modify align v b obj in
        (test align b' other ≡ (
          if (other - b.heap_begin) / align == (obj - b.heap_begin) / align
          then v
          else test align b other))
        × (was_set ≡ test align b obj)
  test-modify v b obj other = (
    test-bit (modify align v b obj).0 other
        ∙ rw (modify-heap_begin v b obj) (
            modify-bit v b obj (word_of b other) (bit_of b other) (bit_of_fits b other)
            ∙ rw (one_granule b obj other, test-bit b other)),
    unfold modify test in refl,
  )
