-- ===== src/Packer/Words.antt =====
-- src/uvmsc/policy/uvm_packer.cpp: the bits of a packer as streams of bits, bytes and integers.
use native.Mathlib.Nat.{suc-mul, add_comm}
use system_c_uvm.Base.{
  ◌^◌, ℕ, zero, suc, ◌+◌, ◌*◌, ◌/◌, ◌%◌, ◌<◌, ◌≤◌, ◌≡◌, refl, sym, ◌∙◌, ap, subst, Bool, true,
  false, if◌then◌else◌, ◌==◌, List, [], ◌∷◌, length, arith, Bool-cases, inl, inr,
}
use system_c_uvm.Packer.{
  Packer, read, write, bits_of, number, m_allocate, reset, get_remaining_unpacked_bits,
}
use system_c_uvm.Packer.Stream.{length-read, read-add, read-write, read-ext, write-before}
use system_c_uvm.Packer.Values.{swap, length-swap, swap-swap}

unfoldable pub m_set_size : ℕ → Packer → Packer
unfolding m_allocate
m_set_size nbits = m_allocate nbits false

-- The assignment of bits from the last to the first.
unfoldable pub write_down : ℕ → List Bool → (ℕ → Bool) → ℕ → Bool
write_down at [] f j = f j
write_down at (b ∷ l) f j = if j == at then b else write_down (at + 1) l f j

unfoldable pub put_bits : List Bool → Packer → Packer
unfolding m_set_size reset write write_down
put_bits bitstream p =
    let p' = m_set_size (length bitstream) (reset p) in
    record p' {
      bits = if p.big_endian then write_down 0 bitstream p'.bits else write 0 bitstream p'.bits;
      pack_index = length bitstream;
    }

unfoldable pub get_bits : Packer → List Bool
unfolding read get_remaining_unpacked_bits
get_bits p = read 0 (get_remaining_unpacked_bits p) p.bits

-- The loops over words of a width, with their bits in the order of the packer.
unfoldable pub write_words : Bool → ℕ → ℕ → List ℕ → (ℕ → Bool) → ℕ → Bool
unfolding write bits_of
write_words big w at [] f = f
write_words big w at (v ∷ vs) f =
    write_words big w (at + w) vs (write at (swap big (bits_of w v)) f)

unfoldable pub read_words : Bool → ℕ → ℕ → ℕ → (ℕ → Bool) → List ℕ
unfolding read number
read_words big w at zero f = []
read_words big w at (suc n) f = number (swap big (read at w f)) ∷ read_words big w (at + w) n f

-- 1 + (n - 1) / w in unsigned numbers of 32 bits.
unfoldable pub word_count : ℕ → ℕ → ℕ
word_count w n = 1 + (n + 4294967295) % 4294967296 / w

abbrev pub put_words : ℕ → List ℕ → Packer → Packer
put_words w vs p =
    let p' = m_set_size (length vs * w) (reset p) in
    record p' { bits = write_words p.big_endian w 0 vs p'.bits; pack_index = length vs * w }

abbrev pub get_words : ℕ → Packer → List ℕ
get_words w p = read_words p.big_endian w 0 (word_count w (get_remaining_unpacked_bits p)) p.bits

unfoldable pub put_bytes : List ℕ → Packer → Packer
unfolding m_set_size reset write_words
put_bytes bytestream p = put_words 8 bytestream p

unfoldable pub put_ints : List ℕ → Packer → Packer
unfolding m_set_size reset write_words
put_ints intstream p = put_words 32 intstream p

unfoldable pub get_bytes : Packer → List ℕ
unfolding read_words word_count get_remaining_unpacked_bits
get_bytes p = get_words 8 p

unfoldable pub get_ints : Packer → List ℕ
unfolding read_words word_count get_remaining_unpacked_bits
get_ints p = get_words 32 p

bits_of-number : (l : List Bool) → bits_of (length l) (number l) ≡ l
unfolding bits_of number
bits_of-number [] = refl
bits_of-number (true ∷ l) =
    let half : (1 + 2 * number l) / 2 ≡ number l = omega arith in
    let odd : ((1 + 2 * number l) % 2 == 1) ≡ true = ground arith in
    cc (half, odd, bits_of-number l)
bits_of-number (false ∷ l) =
    let half : (0 + 2 * number l) / 2 ≡ number l = omega arith in
    let even : ((0 + 2 * number l) % 2 == 1) ≡ false = ground arith in
    cc (half, even, bits_of-number l)

write_words-before :
    (big : Bool) (w at : ℕ) (vs : List ℕ) (f : ℕ → Bool) (j : ℕ)
    → j < at
    → write_words big w at vs f j ≡ f j
unfolding write_words
write_words-before big w at [] f j h = refl
write_words-before big w at (v ∷ vs) f j h =
    let l = swap big (bits_of w v) in
    write_words-before big w (at + w) vs (write at l f) j (omega arith) ∙ write-before at l f j h

-- The bits of a word come back when it is written.
word_bits :
    (big : Bool) (w at : ℕ) (f : ℕ → Bool)
    → swap big (bits_of w (number (swap big (read at w f)))) ≡ read at w f
word_bits big w at f =
    let l = swap big (read at w f) in
    let n : length l ≡ w = length-swap big (read at w f) ∙ length-read at w f in
    ap (λ k. swap big (bits_of k (number l))) (sym n)
    ∙ ap (swap big) (bits_of-number l)
    ∙ swap-swap big (read at w f)

pub length-read_words :
    (big : Bool) (w at n : ℕ) (f : ℕ → Bool) → length (read_words big w at n f) ≡ n
unfolding read_words
length-read_words big w at zero f = refl
length-read_words big w at (suc n) f = omega (arith, length-read_words big w (at + w) n f)

read-none : (at : ℕ) (f g : ℕ → Bool) → read at 0 f ≡ read at 0 g
unfolding read
read-none at f g = refl

pub write_words-read_words :
    (big : Bool) (w at n : ℕ) (f g : ℕ → Bool)
    → read at (n * w) (write_words big w at (read_words big w at n f) g) ≡ read at (n * w) f
unfolding write_words read_words
write_words-read_words big w at zero f g =
    let e : 0 * w ≡ 0 = omega arith in
    ap (λ k. read at k (write_words big w at (read_words big w at 0 f) g)) e
    ∙ read-none at (write_words big w at (read_words big w at 0 f) g) f
    ∙ ap (λ k. read at k f) (sym e)
write_words-read_words big w at (suc n) f g =
    let l = swap big (bits_of w (number (swap big (read at w f)))) in
    let vs = read_words big w (at + w) n f in
    let h = write_words big w (at + w) vs (write at l g) in
    let e : suc n * w ≡ w + n * w = suc-mul n w ∙ add_comm (n * w) w in
    let same : l ≡ read at w f = word_bits big w at f in
    let size : length l ≡ w = ap length same ∙ length-read at w f in
    let front : read at w h ≡ read at w f =
      read-ext at w h (write at l g)
        (λ j lt. write_words-before big w (at + w) vs (write at l g) j lt)
      ∙ subst (λ k. read at k (write at l g) ≡ l) size (read-write at l g)
      ∙ same in
    ap (λ k. read at k h) e
    ∙ read-add at w (n * w) h
    ∙ cc (front, write_words-read_words big w (at + w) n f (write at l g))
    ∙ sym (read-add at w (n * w) f)
    ∙ ap (λ k. read at k f) (sym e)

-- There are words for all the bits, and not too many.
abbrev pub IsEnough : ℕ → ℕ → Type 0
IsEnough w n = (n ≤ word_count w n * w) × (word_count w n * w < 2 ^ 31)

pub word_count-IsEnough : (n : ℕ) → 0 < n → n ≤ 2147479552 → IsEnough 8 n × IsEnough 32 n
unfolding word_count
word_count-IsEnough n h k = ((omega arith, omega arith), (omega arith, omega arith))

write-ext :
    (at : ℕ) (l : List Bool) (f g : ℕ → Bool) (j : ℕ) → f j ≡ g j → write at l f j ≡ write at l g j
unfolding write
write-ext at [] f g j e = e
write-ext at (b ∷ l) f g j e =
    write-ext (at + 1) l (λ i. if i == at then b else f i) (λ i. if i == at then b else g i) j
      (ap (λ x. if j == at then b else x) e)

write_down-at :
    (at : ℕ) (l : List Bool) (f : ℕ → Bool) (j : ℕ) → write_down at l f j ≡ write at l f j
unfolding write_down write
write_down-at at [] f j = refl
write_down-at at (b ∷ l) f j =
    let f' : ℕ → Bool = λ i. if i == at then b else f i in
    let at_it : j < at + 1 → write (at + 1) l f' j ≡ f' j = write-before (at + 1) l f' j in
    let off_it : f' j ≡ f j → write (at + 1) l f' j ≡ write (at + 1) l f j =
      write-ext (at + 1) l f' f j in
    let later = write_down-at (at + 1) l f j in
    elim (Bool-cases (j == at)) [
      | inl h ↦
          let t : f' j ≡ b = rw h refl in
          let low : j < at + 1 = ground (arith, h) in rw h (sym (at_it low ∙ t))
      | inr h ↦ let t : f' j ≡ f j = rw h refl in rw h (later ∙ sym (off_it t))
    ]

pub read-either :
    (big : Bool) (at : ℕ) (l : List Bool) (f : ℕ → Bool)
    → read at (length l) (if big then write_down at l f else write at l f) ≡ l
read-either true at l f =
    read-ext at (length l) (write_down at l f) (write at l f) (λ j lt. write_down-at at l f j)
    ∙ read-write at l f
read-either false at l f = read-write at l f
