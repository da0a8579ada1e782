-- ===== src/Common/Smear.antt =====
-- `x |= x >> w` for w = 1, 2, 4, ... fills a word with ones below its first digit.
use Prim.Native.Nat.{ℕ, zero, suc, ◌+◌, ◌-◌, ◌*◌, ◌/◌, ◌^◌, ◌≤◌, ◌<◌, bit_or}
use mathlib.Core.Path.{◌≡◌, ap, sym, ◌∙◌}
use mathlib.Core.Bool.{true, false, not}
use mathlib.Core.Logic.{inl, inr}
use js.Common.Tests.{leb, ltb, Bool-cases}
use native.Mathlib.Nat.{pow-suc, one-le-pow, div-div-eq-div-mul, div-le_self}
use native.Mathlib.Omega.{arith}
use js.Common.Bits.{bit, bit-or, bit_or-digit, bit-zero, eq_of_bits}
use js.Common.Masks.{bit-complement}

two_pow : (k : ℕ) → (2 ^ suc k ≡ 2 * 2 ^ k) × (1 ≤ 2 ^ k)
two_pow k = (omega (arith, pow-suc 2 k), one-le-pow k 2 (omega arith))

bit-shift : (w k a : ℕ) → bit k (a / 2 ^ w) ≡ bit (w + k) a
unfolding bit
bit-shift zero k a =
    let whole : a / 2 ^ 0 ≡ a = omega arith in
    let here : k ≡ 0 + k = omega arith in ap (λ t. bit k t) whole ∙ ap (λ i. bit i a) here
bit-shift (suc w) k a =
    let q : a / 2 ^ suc w ≡ a / 2 / 2 ^ w =
      sym (div-div-eq-div-mul a 2 (2 ^ w) ∙ ap (λ t. a / t) (sym (two_pow w).0)) in
    let next : suc (w + k) ≡ suc w + k = omega arith in
    ap (λ t. bit k t) q ∙ bit-shift w k (a / 2) ∙ ap (λ i. bit i a) next

bit-high : (n k a : ℕ) → a < 2 ^ n → n ≤ k → bit k a ≡ false
unfolding bit
bit-high zero k a h l = ap (bit k) (omega arith) ∙ bit-zero k
bit-high (suc n) zero a h l = absurd (omega arith)
bit-high (suc n) (suc k) a h l = bit-high n k (a / 2) (omega (arith, two_pow n)) (omega arith)

bit-top : (t a : ℕ) → 2 ^ t ≤ a → a < 2 ^ suc t → bit t a ≡ true
unfolding bit
bit-top zero a h l = ground arith
bit-top (suc t) a h l =
    bit-top t (a / 2) (omega (arith, two_pow t)) (omega (arith, two_pow t, two_pow (suc t)))

bit_or-bound : (n a b : ℕ) → a < 2 ^ n → b < 2 ^ n → bit_or a b < 2 ^ n
bit_or-bound zero a b h l =
    let x : a ≡ 0 = omega arith in let y : b ≡ 0 = omega arith in rw (x, y) (omega arith)
bit_or-bound (suc n) a b h l = omega (
  arith,
  two_pow n,
  bit_or-digit a b,
  bit_or-bound n (a / 2) (b / 2) (omega (arith, two_pow n)) (omega (arith, two_pow n)),
)

-- The place of the first digit.
pub first_place : (n x : ℕ) → 1 ≤ x → x < 2 ^ n → (t : ℕ) × (t < n) × (2 ^ t ≤ x) × (x < 2 ^ suc t)
first_place zero x h l = absurd (omega arith)
first_place (suc n) x h l = elim (Bool-cases (leb (2 ^ n) x)) [
  | inl big ↦ (n, omega arith, ground arith, l)
  | inr small ↦ let (t, a, b, c) = first_place n x h (ground arith) in (t, omega arith, b, c)
]

-- The `w` digits from place `t` down are ones, and there is none above.
pub record IsFull (t w y : ℕ) : Type 0 where
  pub below : y < 2 ^ suc t
  pub ones : (k : ℕ) → k ≤ t → t < w + k → bit k y ≡ true

pub IsFull-start : (t y : ℕ) → 2 ^ t ≤ y → y < 2 ^ suc t → IsFull t 1 y
IsFull-start t y h l = record {
  below = l;
  ones = λ k a b. let same : k ≡ t = omega arith in ap (λ i. bit i y) same ∙ bit-top t y h l;
}

pub IsFull-step : (t w y : ℕ) → IsFull t w y → IsFull t (w + w) (bit_or y (y / 2 ^ w))
IsFull-step t w y f = record {
  below =
      bit_or-bound (suc t) y (y / 2 ^ w) f.below (omega (arith, f.below, div-le_self y (2 ^ w)));
  ones = λ k a b. elim (Bool-cases (ltb t (w + k))) [
    | inl near ↦ ground (arith, bit-or k y (y / 2 ^ w), f.ones k)
    | inr far ↦ ground (arith, bit-or k y (y / 2 ^ w), bit-shift w k y, f.ones (w + k))
  ];
}

pub full_end : (t w y : ℕ) → t < w → IsFull t w y → y ≡ 2 ^ suc t - 1
full_end t w y h f = eq_of_bits y (2 ^ suc t - 1) (λ k. elim (Bool-cases (leb k t)) [
  | inl low ↦
      f.ones k (ground arith) (ground arith)
      ∙ sym (
          ap (λ m. bit k m) (omega arith)
          ∙ bit-complement (suc t) k 0 (omega (arith, two_pow (suc t))) (ground arith)
          ∙ ap not (bit-zero k))
  | inr high ↦
      bit-high (suc t) k y f.below (ground arith)
      ∙ sym (bit-high (suc t) k (2 ^ suc t - 1) (omega (arith, two_pow (suc t))) (ground arith))
])
