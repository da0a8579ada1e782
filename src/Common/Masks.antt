-- ===== src/Common/Masks.antt =====
-- Masks of low bits and of high bits, as remainders and quotients.
use Prim.Native.Nat.{ℕ, zero, suc, ◌+◌, ◌-◌, ◌*◌, ◌/◌, ◌%◌, ◌^◌, ◌≤◌, ◌<◌, bit_and, bit_or}
use mathlib.Core.Path.{◌≡◌, refl, ap, sym, ◌∙◌}
use mathlib.Core.Bool.{not}
use js.Common.Tests.{◌==◌}
use native.Mathlib.Nat.{pow-suc, one-le-pow, div-div-eq-div-mul, div-add-mod}
use native.Mathlib.Omega.{arith}
use js.Common.Bits.{bit, bit-or, bit_and-digit, bit_or-digit, bit_and-zero, bit-zero, eq_of_bits}

two_pow : (k : ℕ) → (2 ^ suc k ≡ 2 * 2 ^ k) × (1 ≤ 2 ^ k)
two_pow k = (omega (arith, pow-suc 2 k), one-le-pow k 2 (omega arith))

mod_double : (a w : ℕ) → 1 ≤ w → a % (2 * w) ≡ 2 * (a / 2 % w) + a % 2
mod_double a w h = omega (
  arith,
  div-div-eq-div-mul a 2 w,
  div-add-mod a (2 * w),
  div-add-mod (a / 2) w,
  ap (λ (t : ℕ). w * t) (div-div-eq-div-mul a 2 w),
)

-- A mask of `k` low ones is the remainder by `2 ^ k`.
pub bit_and_low : (k a : ℕ) → bit_and a (2 ^ k - 1) ≡ a % 2 ^ k
bit_and_low zero a = rw bit_and-zero (omega arith)
bit_and_low (suc k) a =
    ground (
      arith,
      two_pow k,
      bit_and-digit a (2 ^ suc k - 1),
      bit_and_low k (a / 2),
      mod_double a (2 ^ k),
    )

-- A mask of low zeros looks only at the quotient.
pub bit_and_high : (k a m : ℕ) → bit_and a (m * 2 ^ k) ≡ bit_and (a / 2 ^ k) m * 2 ^ k
bit_and_high zero a m = ground arith
bit_and_high (suc k) a m =
    let q : a / 2 / 2 ^ k ≡ a / 2 ^ suc k =
      div-div-eq-div-mul a 2 (2 ^ k) ∙ ap (λ t. a / t) (sym (two_pow k).0) in
    let ih : bit_and (a / 2) (m * 2 ^ k) ≡ bit_and (a / 2 ^ suc k) m * 2 ^ k =
      rw q at (bit_and_high k (a / 2) m) in
    ground (
      arith,
      ih,
      bit_and-digit a (m * 2 ^ suc k),
      ap (λ (t : ℕ). m * t) (pow-suc 2 k),
      ap (λ (t : ℕ). bit_and (a / 2 ^ suc k) m * t) (pow-suc 2 k),
    )

pub bit_or-zero : (a : ℕ) → bit_or a 0 ≡ a
bit_or-zero a = eq_of_bits (bit_or a 0) a (λ k. ground (arith, bit-or k a 0, bit-zero k))

-- `|` of words with no common digit is the sum.
pub bit_or_sum : (k q r : ℕ) → r < 2 ^ k → bit_or (q * 2 ^ k) r ≡ q * 2 ^ k + r
bit_or_sum zero q r h = ground (arith, bit_or-zero q)
bit_or_sum (suc k) q r h = ground (
  arith,
  two_pow k,
  bit_or-digit (q * 2 ^ suc k) r,
  bit_or_sum k q (r / 2) (omega arith),
  ap (λ (t : ℕ). q * t) (pow-suc 2 k),
)

-- A power of two has one digit, and `!x` on `n` bits has the opposite digits.
pub bit-pow : (k j : ℕ) → bit k (2 ^ j) ≡ (k == j)
unfolding bit
bit-pow zero zero = refl
bit-pow zero (suc j) = ground (arith, two_pow j)
bit-pow (suc k) zero = bit-zero k ∙ ground arith
bit-pow (suc k) (suc j) =
    let half : 2 ^ suc j / 2 ≡ 2 ^ j = omega (arith, two_pow j) in
    rw half (bit-pow k j ∙ ground arith)

pub bit-complement : (n k x : ℕ) → x < 2 ^ n → k < n → bit k (2 ^ n - 1 - x) ≡ not (bit k x)
unfolding bit
bit-complement zero k x h l = absurd (omega arith)
bit-complement (suc n) zero x h l = ground (arith, two_pow n)
bit-complement (suc n) (suc k) x h l =
    let half : (2 ^ suc n - 1 - x) / 2 ≡ 2 ^ n - 1 - x / 2 = omega (arith, two_pow n) in
    rw half (bit-complement n k (x / 2) (omega (arith, two_pow n)) (omega arith))
