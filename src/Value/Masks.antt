-- ===== src/Value/Masks.antt =====
-- The masks of the tag tests, as quotients and remainders of a 64-bit pattern.
use js.Common.{ℕ, ◌+◌, ◌-◌, ◌*◌, ◌/◌, ◌%◌, ◌^◌, ◌<◌, ◌≡◌, bit_and, bit_or, arith}
use js.Common.{bit_and_low, bit_and_high, bit_or_sum, bit_and-digit}
use js.Value.{number_tag, not_one, not_cell_mask, native32_mask, native32_tag}

-- `NUMBER_TAG` is the top 15 bits.
pub number_tag_lem : (v : ℕ) → v < 2 ^ 64 → bit_and v number_tag ≡ v / 2 ^ 49 * 2 ^ 49
number_tag_lem v h = omega (arith, bit_and_high 49 v 32767, bit_and_low 15 (v / 2 ^ 49))

pub not_one_lem : (v : ℕ) → v < 2 ^ 64 → bit_and v not_one ≡ v / 2 * 2
not_one_lem v h = omega (arith, bit_and_high 1 v (2 ^ 63 - 1), bit_and_low 63 (v / 2))

-- Bit 1 and the top 15 bits.
pub not_cell_mask_lem :
    (v : ℕ) → v < 2 ^ 64 → bit_and v not_cell_mask ≡ v / 2 ^ 49 * 2 ^ 49 + v / 2 % 2 * 2
not_cell_mask_lem v h = omega (
  arith,
  bit_and-digit v not_cell_mask,
  bit_and-digit (v / 2) (not_cell_mask / 2),
  bit_and_high 47 (v / 2 / 2) 32767,
  bit_and_low 15 (v / 2 / 2 / 2 ^ 47),
)

-- Bits 1 and 4 and the top 15 bits.
pub native32_mask_lem :
    (v : ℕ)
    → v < 2 ^ 64
    → bit_and v native32_mask ≡ v / 2 ^ 49 * 2 ^ 49 + v / 16 % 2 * 16 + v / 2 % 2 * 2
native32_mask_lem v h = omega (
  arith,
  bit_and-digit v native32_mask,
  bit_and-digit (v / 2) (native32_mask / 2),
  bit_and-digit (v / 2 / 2) (native32_mask / 4),
  bit_and-digit (v / 2 / 2 / 2) (native32_mask / 8),
  bit_and-digit (v / 2 / 2 / 2 / 2) (native32_mask / 16),
  bit_and_high 44 (v / 2 / 2 / 2 / 2 / 2) 32767,
  bit_and_low 15 (v / 2 / 2 / 2 / 2 / 2 / 2 ^ 44),
)

pub encode_int32_sum : (x : ℕ) → x < 2 ^ 32 → bit_or number_tag x ≡ number_tag + x
encode_int32_sum x h = bit_or_sum 49 32767 x (omega arith)

pub native_sum : (x : ℕ) → bit_or (x * 2 ^ 16) native32_tag ≡ x * 2 ^ 16 + native32_tag
native_sum x = bit_or_sum 16 x native32_tag (omega arith)
