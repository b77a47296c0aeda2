-- ===== src/Base/Bits.antt =====
-- The binary digits of `bit_and`, `bit_or` and of a 64-bit complement, at variables.
use Prim.Native.Nat.{
  ℕ, zero, suc, ◌+◌, ◌-◌, ◌*◌, ◌/◌, ◌%◌, ◌≤◌, ◌<◌, min, max, digits, bit_and, bit_or,
  bit_and-bitwise, bit_or-bitwise,
}
use native.Mathlib.Nat.{le_refl}
use mathlib.Core.Path.{◌≡◌, refl, ap, ◌∙◌}
use native.Mathlib.Omega.{arith}

-- Digit k of a number.
pub bit : ℕ → ℕ → ℕ
bit zero a = a % 2
bit (suc k) a = bit k (a / 2)

bit-zero : (k : ℕ) → bit k 0 ≡ 0
unfolding bit
bit-zero zero = refl
bit-zero (suc k) = bit-zero k

-- `bit_and` and `bit_or` stand for a recursion on the digits of the first number; where its fuel
-- covers that number, digit k of the result is the operation on the two digits k.
module _ (z : ℕ → ℕ) (f : ℕ → ℕ → ℕ) where
  bit-digits :
      ((j y : ℕ) → bit j (z y) ≡ f 0 (bit j y))
      → ((x y : ℕ) → f (x % 2) (y % 2) ≤ 1)
      → (n a b k : ℕ) → a ≤ n
      → bit k (digits z f n a b) ≡ f (bit k a) (bit k b)
  unfolding bit
  bit-digits hz hf zero zero b k h = rw bit-zero (hz k b)
  bit-digits hz hf zero (suc a) b k h = absurd (omega arith)
  bit-digits hz hf (suc n) zero b k h = rw bit-zero (hz k b)
  bit-digits hz hf (suc n) (suc a) b zero h = omega (arith, hf (suc a) b)
  bit-digits hz hf (suc n) (suc a) b (suc k) h =
      ap (bit k) {y = digits z f n (suc a / 2) (b / 2)} (omega (arith, hf (suc a) b))
      ∙ bit-digits hz hf n (suc a / 2) (b / 2) k (omega arith)

pub bit-bit_and : (k a b : ℕ) → bit k (bit_and a b) ≡ min (bit k a) (bit k b)
bit-bit_and k a b =
    ap (bit k) (bit_and-bitwise a b)
    ∙ bit-digits (λ y. 0) min (λ j y. rw bit-zero (omega arith)) (λ x y. omega arith) a a b k
        (le_refl a)

pub bit-bit_or : (k a b : ℕ) → bit k (bit_or a b) ≡ max (bit k a) (bit k b)
bit-bit_or k a b =
    ap (bit k) (bit_or-bitwise a b)
    ∙ bit-digits (λ y. y) max (λ j y. omega arith) (λ x y. omega arith) a a b k (le_refl a)

pub bit-le-one : (k a : ℕ) → bit k a ≤ 1
unfolding bit
bit-le-one zero a = omega arith
bit-le-one (suc k) a = bit-le-one k (a / 2)

-- `~m` of a w-bit word.
pub complement : ℕ → ℕ → ℕ
complement zero m = 0
complement (suc w) m = complement w (m / 2) * 2 + (1 - m % 2)

pub bit-complement : (k w m : ℕ) → k < w → bit k (complement w m) ≡ 1 - bit k m
unfolding bit complement
bit-complement k zero m h = absurd (omega arith)
bit-complement zero (suc w) m h = omega arith
bit-complement (suc k) (suc w) m h =
    ap (bit k) (omega arith) ∙ bit-complement k w (m / 2) (omega arith)
