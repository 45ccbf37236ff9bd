-- ===== src/Base/Digits.antt =====
-- `bit_and` and `bit_or` by their lowest digits: `&` distributes over `|`, and a mask is shifted.
use Prim.Native.Nat.{
  ℕ, zero, suc, ◌+◌, ◌*◌, ◌/◌, ◌%◌, ◌^◌, ◌≤◌, min, max, bit_and, bit_or, digits, bit_and-bitwise,
  bit_or-bitwise,
}
use mathlib.Core.Path.{◌≡◌, refl, sym, ap, ◌∙◌}
use native.Mathlib.Omega.{arith}
use system_c_uvm.Base.Bits.{bit_and-le}
use native.Mathlib.Nat.{
  pow-suc, add-zero, add-suc, mul-one, mul_comm, mul_assoc, div-one, div-div-eq-div-mul,
}

-- The digits of two numbers taken together, where `n` counts the digits to go.
module _ (z : ℕ → ℕ) (f : ℕ → ℕ → ℕ) where
  digits_over : (n b : ℕ) → digits z f n 0 b ≡ z b
  digits_over zero b = refl
  digits_over (suc n) b = refl

  -- Any count that is large enough gives the same.
  digits_enough : (n m b a : ℕ) → a ≤ n → a ≤ m → digits z f n a b ≡ digits z f m a b
  digits_enough n m b zero large enough = digits_over n b ∙ sym (digits_over m b)
  digits_enough zero m b (suc a) large enough = absurd (omega (arith, large))
  digits_enough (suc n) zero b (suc a) large enough = absurd (omega (arith, enough))
  digits_enough (suc n) (suc m) b (suc a) large enough =
      ap (λ rest. rest * 2 + f (suc a % 2) (b % 2))
        (digits_enough n m (b / 2) (suc a / 2) (omega (arith, large)) (omega (arith, enough)))

  -- The lowest digit, and the others.
  lowest :
      (a b : ℕ)
      → z b ≡ z (b / 2) * 2 + f 0 (b % 2)
      → digits z f a a b ≡ digits z f (a / 2) (a / 2) (b / 2) * 2 + f (a % 2) (b % 2)
  lowest zero b empty = empty
  lowest (suc a) b empty =
      ap (λ rest. rest * 2 + f (suc a % 2) (b % 2))
        (digits_enough a (suc a / 2) (b / 2) (suc a / 2) (omega arith) (omega arith))

pub zero-bit_and : (b : ℕ) → bit_and 0 b ≡ 0
zero-bit_and b = bit_and-bitwise 0 b

pub zero-bit_or : (b : ℕ) → bit_or 0 b ≡ b
zero-bit_or b = bit_or-bitwise 0 b

bit_and_digit : (a b : ℕ) → bit_and a b ≡ bit_and (a / 2) (b / 2) * 2 + min (a % 2) (b % 2)
bit_and_digit a b = omega (
  arith,
  lowest (λ y. 0) min a b (omega arith),
  bit_and-bitwise a b,
  bit_and-bitwise (a / 2) (b / 2),
)

bit_or_digit : (a b : ℕ) → bit_or a b ≡ bit_or (a / 2) (b / 2) * 2 + max (a % 2) (b % 2)
bit_or_digit a b = omega (
  arith,
  lowest (λ y. y) max a b (omega arith),
  bit_or-bitwise a b,
  bit_or-bitwise (a / 2) (b / 2),
)

half-bit_and : (a b : ℕ) → bit_and a b / 2 ≡ bit_and (a / 2) (b / 2)
half-bit_and a b = omega (arith, bit_and_digit a b)

half-bit_or : (a b : ℕ) → bit_or a b / 2 ≡ bit_or (a / 2) (b / 2)
half-bit_or a b = omega (arith, bit_or_digit a b)

low-bit_and : (a b : ℕ) → bit_and a b % 2 ≡ min (a % 2) (b % 2)
low-bit_and a b = omega (arith, bit_and_digit a b)

low-bit_or : (a b : ℕ) → bit_or a b % 2 ≡ max (a % 2) (b % 2)
low-bit_or a b = omega (arith, bit_or_digit a b)

distributes : (n v a b : ℕ) → v ≤ n → bit_and v (bit_or a b) ≡ bit_or (bit_and v a) (bit_and v b)
distributes n zero a b h =
    zero-bit_and (bit_or a b)
    ∙ sym (
        ap (λ x. bit_or x (bit_and 0 b)) (zero-bit_and a)
        ∙ zero-bit_or (bit_and 0 b)
        ∙ zero-bit_and b)
distributes zero (suc v) a b h = absurd (omega arith)
distributes (suc n) (suc v) a b h = omega (
  arith,
  bit_and_digit (suc v) (bit_or a b),
  bit_or_digit (bit_and (suc v) a) (bit_and (suc v) b),
  low-bit_or a b,
  low-bit_and (suc v) a,
  low-bit_and (suc v) b,
  ap (bit_and (suc v / 2)) (half-bit_or a b)
      ∙ distributes n (suc v / 2) (a / 2) (b / 2) (omega arith)
      ∙ sym (
          ap (λ x. bit_or x (bit_and (suc v) b / 2)) (half-bit_and (suc v) a)
          ∙ ap (bit_or (bit_and (suc v / 2) (a / 2))) (half-bit_and (suc v) b)),
)

pub bit_and-bit_or : (v a b : ℕ) → bit_and v (bit_or a b) ≡ bit_or (bit_and v a) (bit_and v b)
bit_and-bit_or v a b = distributes v v a b (omega arith)

double : (v m : ℕ) → bit_and v (m * 2) ≡ bit_and (v / 2) m * 2
double v m = omega (arith, bit_and_digit v (m * 2), ap (bit_and (v / 2)) (half m))
  where
    half : (k : ℕ) → (k * 2) / 2 ≡ k
    half k = omega arith

div_twice : (l v : ℕ) → v / 2 / 2 ^ l ≡ v / 2 ^ suc l
div_twice l v =
    div-div-eq-div-mul v 2 (2 ^ l) ∙ ap (λ k. v / k) (mul_comm 2 (2 ^ l) ∙ sym (pow-suc 2 l))

mul_twice : (x l : ℕ) → x * 2 ^ l * 2 ≡ x * 2 ^ suc l
mul_twice x l = mul_assoc x (2 ^ l) 2 ∙ ap (λ k. x * k) (sym (pow-suc 2 l))

-- A mask that is shifted left takes the digits of the number that is shifted right.
pub bit_and_shift : (l v m : ℕ) → bit_and v (m * 2 ^ l) ≡ bit_and (v / 2 ^ l) m * 2 ^ l
bit_and_shift zero v m =
    ap (bit_and v) (mul-one m)
    ∙ sym (mul-one (bit_and (v / 2 ^ 0) m) ∙ ap (λ x. bit_and x m) (div-one v))
bit_and_shift (suc l) v m =
    ap (bit_and v) (sym (mul_twice m l))
    ∙ double v (m * 2 ^ l)
    ∙ ap (λ x. x * 2) (bit_and_shift l (v / 2) m)
    ∙ mul_twice (bit_and (v / 2 / 2 ^ l) m) l
    ∙ ap (λ x. bit_and x m * 2 ^ suc l) (div_twice l v)

pub two_pow_add : (n m : ℕ) → 2 ^ (n + m) ≡ 2 ^ n * 2 ^ m
two_pow_add n zero = ap (λ k. 2 ^ k) (add-zero n) ∙ sym (mul-one (2 ^ n))
two_pow_add n (suc m) =
    ap (λ k. 2 ^ k) (add-suc n m)
    ∙ pow-suc 2 (n + m)
    ∙ ap (λ x. x * 2) (two_pow_add n m)
    ∙ mul_twice (2 ^ n) m

pub bit_and-zero : (a : ℕ) → bit_and a 0 ≡ 0
bit_and-zero a = omega (arith, bit_and-le a 0)
