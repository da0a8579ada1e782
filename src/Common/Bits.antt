-- ===== src/Common/Bits.antt =====
-- `&` and `|` of machine words at variables: the digits of the result are the Boolean
-- combinations of the digits of the operands.
use Prim.Native.Nat.{
  ℕ, zero, suc, ◌+◌, ◌*◌, ◌/◌, ◌%◌, ◌^◌, ◌≤◌, min, max, bit_and, bit_or, digits, bitwise,
  bit_and-bitwise, bit_or-bitwise,
}
use mathlib.Core.Path.{◌≡◌, refl, ap}
use mathlib.Core.Bool.{Bool, false, not, ◌&&◌, ◌||◌}
use native.Mathlib.Nat.{le_refl, pow-suc}
use native.Mathlib.Omega.{arith}
use js.Common.Tests.{◌==◌}

-- Digit `k` of a word.
unfoldable pub bit : ℕ → ℕ → Bool
bit zero a = a % 2 == 1
bit (suc k) a = bit k (a / 2)

module _ (ends : ℕ → ℕ) (op : ℕ → ℕ → ℕ) where
  -- Fuel beyond the first operand changes nothing.
  enough : (n a b : ℕ) → a ≤ n → digits ends op n a b ≡ digits ends op a a b
  enough n a b h = go n a a b h (le_refl a)
    where
      go : (n m a b : ℕ) → a ≤ n → a ≤ m → digits ends op n a b ≡ digits ends op m a b
      go zero zero a b p q = refl
      go zero (suc m) zero b p q = refl
      go zero (suc m) (suc a) b p q = absurd (omega arith)
      go (suc n) zero zero b p q = refl
      go (suc n) zero (suc a) b p q = absurd (omega arith)
      go (suc n) (suc m) zero b p q = refl
      go (suc n) (suc m) (suc a) b p q =
          ap (λ t. t * 2 + op (suc a % 2) (b % 2))
            (go n m (suc a / 2) (b / 2) (omega arith) (omega arith))

  first_digit :
      (a b : ℕ)
      → bitwise ends op (suc a) b ≡ bitwise ends op (suc a / 2) (b / 2) * 2 + op (suc a % 2) (b % 2)
  first_digit a b = omega (arith, enough a (suc a / 2) (b / 2) (omega arith))

pub bit_and-digit : (a b : ℕ) → bit_and a b ≡ bit_and (a / 2) (b / 2) * 2 + min (a % 2) (b % 2)
bit_and-digit zero b = simp bit_and-bitwise (omega arith)
bit_and-digit (suc a) b = simp bit_and-bitwise (first_digit (λ y. 0) min a b)

pub bit_or-digit : (a b : ℕ) → bit_or a b ≡ bit_or (a / 2) (b / 2) * 2 + max (a % 2) (b % 2)
bit_or-digit zero b = simp bit_or-bitwise (omega arith)
bit_or-digit (suc a) b = simp bit_or-bitwise (first_digit (λ y. y) max a b)

pub bit-and : (k a b : ℕ) → bit k (bit_and a b) ≡ (bit k a && bit k b)
unfolding bit
bit-and zero a b = ground (arith, bit_and-digit a b)
bit-and (suc k) a b =
    let half : bit_and a b / 2 ≡ bit_and (a / 2) (b / 2) = omega (arith, bit_and-digit a b) in
    rw half (bit-and k (a / 2) (b / 2))

pub bit-or : (k a b : ℕ) → bit k (bit_or a b) ≡ (bit k a || bit k b)
unfolding bit
bit-or zero a b = ground (arith, bit_or-digit a b)
bit-or (suc k) a b =
    let half : bit_or a b / 2 ≡ bit_or (a / 2) (b / 2) = omega (arith, bit_or-digit a b) in
    rw half (bit-or k (a / 2) (b / 2))

-- Words with the same digits are equal.
pub eq_of_bits : (a b : ℕ) → ((k : ℕ) → bit k a ≡ bit k b) → a ≡ b
unfolding bit
eq_of_bits a b same = go (a + b) a b (omega arith) (omega arith) same
  where
    go : (n a b : ℕ) → a ≤ n → b ≤ n → ((k : ℕ) → bit k a ≡ bit k b) → a ≡ b
    go zero a b p q s = omega arith
    go (suc n) a b p q s =
        ground (arith, s 0, go n (a / 2) (b / 2) (omega arith) (omega arith) (λ k. s (suc k)))

pub bit-zero : (k : ℕ) → bit k 0 ≡ false
unfolding bit
bit-zero zero = refl
bit-zero (suc k) = bit-zero k

pub bit_and-zero : (a : ℕ) → bit_and a 0 ≡ 0
bit_and-zero a = eq_of_bits (bit_and a 0) 0 (λ k. ground (arith, bit-and k a 0, bit-zero k))

-- A test against one digit.
pub bit_and-pow : (k a : ℕ) → not (bit_and a (2 ^ k) == 0) ≡ bit k a
unfolding bit
bit_and-pow zero a = ground (arith, bit_and-digit a 1, bit_and-zero (a / 2))
bit_and-pow (suc k) a =
    ground (arith, bit_and-digit a (2 ^ suc k), pow-suc 2 k, bit_and-pow k (a / 2))
