-- ===== src/Packer/Numbers.antt =====
-- Numbers and their bits, in both orders.
use Prim.Native.Nat.{◌^◌}
use native.Mathlib.Nat.{pow-suc}
use mathlib.Core.List.{reverse, reverse-append, reverse-reverse}
use system_c_uvm.Base.{
  ℕ, zero, suc, ◌/◌, ◌<◌, ◌≡◌, ◌≢◌, refl, sym, ◌∙◌, ap, Bool, true, false, List, [], ◌∷◌, ◌++◌,
  length, length-append, arith,
}
use system_c_uvm.Packer.{bits_of, number}

pub number-bits_of : (n v : ℕ) → v < 2 ^ n → number (bits_of n v) ≡ v
unfolding number bits_of
number-bits_of zero v h = omega arith
number-bits_of (suc n) v h =
    let half : v / 2 < 2 ^ n = omega (arith, pow-suc 2 n) in
    ground (arith, number-bits_of n (v / 2) half)

pub length-bits_of : (n v : ℕ) → length (bits_of n v) ≡ n
unfolding bits_of
length-bits_of zero v = refl
length-bits_of (suc n) v = omega (arith, length-bits_of n (v / 2))

module _ {ℓ} {A : Type ℓ} where
  pub length-reverse : (l : List A) → length (reverse l) ≡ length l
  length-reverse [] = refl
  length-reverse (x ∷ xs) =
      ap length (reverse-append (x ∷ []) xs)
      ∙ length-append (reverse xs) (x ∷ [])
      ∙ omega (arith, length-reverse xs)

number-append_zero : (a b : List Bool) → number a ≡ 0 → number b ≡ 0 → number (a ++ b) ≡ 0
unfolding number
number-append_zero [] b p q = q
number-append_zero (true ∷ a) b p q = absurd (omega arith)
number-append_zero (false ∷ a) b p q = omega (arith, number-append_zero a b (omega arith) q)

number-reverse_zero : (l : List Bool) → number l ≡ 0 → number (reverse l) ≡ 0
unfolding number
number-reverse_zero [] p = refl
number-reverse_zero (true ∷ l) p = absurd (omega arith)
number-reverse_zero (false ∷ l) p =
    ap number (reverse-append (false ∷ []) l)
    ∙ number-append_zero (reverse l) (false ∷ []) (number-reverse_zero l (omega arith)) refl

-- Reversed bits stand for zero only where the bits do.
pub number-reverse_pos : (l : List Bool) → number l ≢ 0 → number (reverse l) ≢ 0
number-reverse_pos l n z = n (ap number (reverse_twice l) ∙ number-reverse_zero (reverse l) z)
  where
    reverse_twice : (l : List Bool) → l ≡ reverse (reverse l)
    reverse_twice l = sym (reverse-reverse l)
