-- ===== src/Base/Bits.antt =====
-- Masks at variables: `a & b` is at most `b`, and `2 ^ n - 1` keeps numbers below `2 ^ n`.
use Prim.Native.Nat.{ℕ, zero, suc, ◌-◌, ◌/◌, ◌^◌, ◌≤◌, ◌<◌, min, bit_and, digits, bit_and-bitwise}
use mathlib.Core.Path.{◌≡◌, refl, ap, ◌∙◌}
use native.Mathlib.Omega.{arith}
use native.Mathlib.Nat.{pow-suc}

-- What `bit_and` stands for, with the number of digits that it looks at.
abbrev conj : ℕ → ℕ → ℕ → ℕ
conj n a b = digits (λ b. zero) min n a b

conj-le : (n a b : ℕ) → conj n a b ≤ b
conj-le zero zero b = omega arith
conj-le zero (suc a) b = omega arith
conj-le (suc n) zero b = omega arith
conj-le (suc n) (suc a) b = omega (arith, conj-le n (suc a / 2) (b / 2))

pub bit_and-le : (a b : ℕ) → bit_and a b ≤ b
bit_and-le a b = omega (arith, bit_and-bitwise a b, conj-le a a b)

half_of_mask : (n : ℕ) → (2 ^ suc n - 1) / 2 ≡ 2 ^ n - 1
half_of_mask n = omega (arith, pow-suc 2 n)

conj-keeps : (k n a : ℕ) → a ≤ k → a < 2 ^ n → conj k a (2 ^ n - 1) ≡ a
conj-keeps zero n zero h lt = refl
conj-keeps zero n (suc a) h lt = absurd (omega arith)
conj-keeps (suc k) n zero h lt = refl
conj-keeps (suc k) zero (suc a) h lt = absurd (omega arith)
conj-keeps (suc k) (suc n) (suc a) h lt = omega (
  arith,
  pow-suc 2 n,
  ap (conj k (suc a / 2)) (half_of_mask n),
  conj-keeps k n (suc a / 2) (omega arith) (omega (arith, pow-suc 2 n)),
)

-- A mask of n ones keeps a number of n digits.
pub bit_and-keeps : (n a : ℕ) → a < 2 ^ n → bit_and a (2 ^ n - 1) ≡ a
bit_and-keeps n a lt = bit_and-bitwise a (2 ^ n - 1) ∙ conj-keeps a n a (omega arith) lt
