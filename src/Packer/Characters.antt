-- ===== src/Packer/Characters.antt =====
-- src/uvmsc/policy/uvm_packer.cpp: characters, and a round of the loop of unpack_string.
use mathlib.Core.List.{append_assoc, append-nil}
use system_c_uvm.Base.{
  ℕ, suc, ◌+◌, ◌<◌, ◌≡◌, ◌≢◌, refl, sym, ◌∙◌, ap, subst, Bool, true, false, ◌==◌, List, [], ◌∷◌,
  ◌++◌, none, length, arith,
}
use system_c_uvm.Packer.{Packer, bits_of, number, m_enough_bits, inc_unpack_index}
use system_c_uvm.Packer.Operations.{ordered, pack_char, pack_chars, unpack_chars, next_bits}
use system_c_uvm.Packer.Numbers.{number-bits_of, length-bits_of, number-reverse_pos}
use system_c_uvm.Packer.Stream.{
  IsReadable, remaining, IsSound, Packs, Packs-trans, append-Packs, Takes, next_part,
  inc_unpack_index-Takes, inc_unpack_index-rest, m_enough_bits-front,
}
use system_c_uvm.Packer.Values.{swap, length-swap, swap-swap}

abbrev pub char_bits : Bool → ℕ → List Bool
char_bits big c = swap big (bits_of 8 c)

abbrev pub chars_bits : Bool → List ℕ → List Bool
chars_bits big [] = []
chars_bits big (c ∷ cs) = char_bits big c ++ chars_bits big cs

-- A character of a string is not the null character.
abbrev pub IsChar : ℕ → Type 0
IsChar c = (0 < c) × (c < 256)

pub pack_char-Packs :
    (c : ℕ) (p : Packer) → IsSound p → Packs (char_bits p.big_endian c) p (pack_char c p)
unfolding pack_char
pack_char-Packs c p s = append-Packs (ordered p (bits_of 8 c)) p s

pub pack_chars-Packs :
    (cs : List ℕ) (p : Packer) → IsSound p → Packs (chars_bits p.big_endian cs) p (pack_chars cs p)
unfolding pack_chars
pack_chars-Packs [] p s = record {
  sound = s;
  stream = sym (append-nil (remaining p));
  same_unpack = refl;
  same_order = refl;
  same_metadata = refl;
  same_errors = refl;
}
pack_chars-Packs (c ∷ cs) p s =
    let a = pack_char-Packs c p s in
    let b = pack_chars-Packs cs (pack_char c p) a.sound in
    Packs-trans a (
      subst (λ big. Packs (chars_bits big cs) (pack_char c p) (pack_chars cs (pack_char c p)))
        a.same_order b)

module _ (p : Packer) (s : IsReadable p) (c : ℕ) (r : List Bool)
    (e : remaining p ≡ char_bits p.big_endian c ++ r) where
  abbrev l : List Bool
  l = char_bits p.big_endian c

  eight : length l ≡ 8
  eight = length-swap p.big_endian (bits_of 8 c) ∙ length-bits_of 8 c

  pub enough_for : m_enough_bits 8 p ≡ true
  enough_for = subst (λ k. m_enough_bits k p ≡ true) eight (m_enough_bits-front l r p s e)

  pub bits_are : next_bits 8 p ≡ l
  bits_are = subst (λ k. next_bits k p ≡ l) eight (next_part l r p s e)

  pub next_char-Takes : Takes l p (inc_unpack_index 8 p)
  next_char-Takes =
      subst (λ k. Takes l p (inc_unpack_index k p)) eight (inc_unpack_index-Takes l r p s e)

  pub rest_of : remaining (inc_unpack_index 8 p) ≡ r
  rest_of =
      subst (λ k. remaining (inc_unpack_index k p) ≡ r) eight (inc_unpack_index-rest l r p s e)

  pub char_is : c < 256 → number (ordered p (next_bits 8 p)) ≡ c
  char_is h =
      ap (λ b. number (swap p.big_endian b)) bits_are
      ∙ ap number (swap-swap p.big_endian (bits_of 8 c))
      ∙ number-bits_of 8 c h

number-bits_pos : (c : ℕ) → IsChar c → number (bits_of 8 c) ≢ 0
number-bits_pos c h z = absurd (omega (arith, number-bits_of 8 c h.1, z, h.0))

pub number-swap_pos : (big : Bool) (c : ℕ) → IsChar c → number (char_bits big c) ≢ 0
number-swap_pos true c h z = number-reverse_pos (bits_of 8 c) (number-bits_pos c h) z
number-swap_pos false c h z = number-bits_pos c h z

pub number-swap_zero : (big : Bool) → number (char_bits big 0) ≡ 0
unfolding number bits_of
number-swap_zero true = refl
number-swap_zero false = refl

pub Takes-refl : (p : Packer) → IsReadable p → Takes [] p p
Takes-refl p s = record {
  sound = s;
  stream = refl;
  same_order = refl;
  same_metadata = refl;
  same_errors = refl;
}

pub Takes-trans :
    {l m : List Bool} {p q o : Packer} → Takes l p q → Takes m q o → Takes (l ++ m) p o
Takes-trans {l} {m} {o} a b = record {
  sound = b.sound;
  stream = a.stream ∙ ap (λ x. l ++ x) b.stream ∙ sym (append_assoc l m (remaining o));
  same_order = b.same_order ∙ a.same_order;
  same_metadata = b.same_metadata ∙ a.same_metadata;
  same_errors = b.same_errors ∙ a.same_errors;
}

-- A round of the loop, at a character and at the end.
pub round :
    (fuel i c : ℕ) (p : Packer)
    → m_enough_bits 8 p ≡ true
    → number (next_bits 8 p) ≢ 0
    → unpack_chars (suc fuel) none i p ≡ (
      number (ordered p (next_bits 8 p))
          ∷ (unpack_chars fuel none (i + 1) (inc_unpack_index 8 p)).0,
      (unpack_chars fuel none (i + 1) (inc_unpack_index 8 p)).1,
    )
unfolding unpack_chars
round fuel i c p here pos =
    let going : (number (next_bits 8 p) == 0) ≡ false = ground arith in rw (here, going) refl

pub stop :
    (fuel i : ℕ) (p : Packer)
    → m_enough_bits 8 p ≡ true
    → number (next_bits 8 p) ≡ 0
    → unpack_chars (suc fuel) none i p ≡ ([], p)
unfolding unpack_chars
stop fuel i p here zero_bits = rw (here, zero_bits) refl
