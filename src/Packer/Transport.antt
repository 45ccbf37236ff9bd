-- ===== src/Packer/Transport.antt =====
-- src/uvmsc/policy/uvm_packer.cpp: what has been packed, given out as bits, bytes or integers and put into another
-- packer.
use system_c_uvm.Base.{
  ◌^◌, ℕ, ◌+◌, ◌-◌, ◌*◌, ◌<◌, ◌≤◌, ◌≡◌, sym, ◌∙◌, ap, subst, Bool, true, if◌then◌else◌, List, ◌++◌,
  length, map, All, arith,
}
use system_c_uvm.Packer.{Packer, read, write, m_allocate, reset, get_remaining_unpacked_bits}
use system_c_uvm.Packer.Stream.{IsReadable, remaining, length-read, read-add, Packs}
use system_c_uvm.Packer.Operators.{Item, shape, put_all, get_all, Fits}
use system_c_uvm.Packer.RoundTrip.{get_all-Gives, items_bits, packed}
use system_c_uvm.Packer.Words.{
  m_set_size, write_down, put_bits, get_bits, write_words, word_count, put_words, get_words,
  put_bytes, put_ints, get_bytes, get_ints, length-read_words, write_words-read_words, IsEnough,
  word_count-IsEnough, read-either,
}

-- A packer that has just been given `n` bits.
record Holds (n : ℕ) (q q' : Packer) : Type 0 where
  pub sound : IsReadable q'
  pub all : q'.pack_index - q'.unpack_index ≡ n
  pub from_zero : q'.unpack_index ≡ 0
  pub same_order : q'.big_endian ≡ q.big_endian
  pub same_metadata : q'.use_metadata ≡ q.use_metadata

holds :
    (n : ℕ) (q : Packer) (f : ℕ → Bool)
    → n < 2 ^ 31
    → Holds n q (record (m_set_size n (reset q)) { bits = f; pack_index = n })
unfolding m_set_size m_allocate reset get_remaining_unpacked_bits
holds n q f h = record {
  sound = record { ordered_indices = ground arith; small = h };
  all = ground arith;
  from_zero = ground arith;
  same_order = ground arith;
  same_metadata = ground arith;
}

module _ (xs : List Item) (p : Packer) (meta : p.use_metadata ≡ true) (fit : All Fits xs)
    (few : (put_all xs (reset p)).pack_index ≤ 2147479552) (q : Packer)
    (meta_q : q.use_metadata ≡ true) (same : q.big_endian ≡ p.big_endian) where
  abbrev full_packer : Packer
  full_packer = put_all xs (reset p)

  abbrev left : ℕ
  left = get_remaining_unpacked_bits full_packer

  abbrev is_packed : Packs (items_bits p.big_endian xs) (reset p) full_packer
  is_packed = packed xs p meta fit few

  counted : left ≡ full_packer.pack_index
  unfolding get_remaining_unpacked_bits reset
  counted = omega (arith, is_packed.same_unpack, few)

  full_bits : read 0 left full_packer.bits ≡ items_bits p.big_endian xs
  unfolding reset read
  full_bits =
      let whole : left ≡ full_packer.pack_index - full_packer.unpack_index =
        omega (arith, counted, is_packed.same_unpack) in
      ap (λ k. read 0 k full_packer.bits) whole
      ∙ ap (λ k. read k (full_packer.pack_index - full_packer.unpack_index) full_packer.bits)
          (sym is_packed.same_unpack)
      ∙ is_packed.stream

  -- Values are unpacked from any packer that holds the bits, with further ones behind them.
  unpacked_from :
      (n : ℕ) (q' : Packer)
      → Holds n q q'
      → left ≤ n
      → read 0 n q'.bits ≡ read 0 n full_packer.bits
      → (get_all (map shape xs) q').0 ≡ xs
  unfolding get_remaining_unpacked_bits
  unpacked_from n q' h enough e =
      let junk = read (0 + left) (n - left) full_packer.bits in
      let sum : n ≡ left + (n - left) = omega arith in
      let stream : remaining q' ≡ items_bits p.big_endian xs ++ junk =
        ap (λ k. read q'.unpack_index k q'.bits) h.all
        ∙ ap (λ k. read k n q'.bits) h.from_zero
        ∙ e
        ∙ ap (λ k. read 0 k full_packer.bits) sum
        ∙ read-add 0 left (n - left) full_packer.bits
        ∙ ap (λ l. l ++ junk) full_bits in
      (get_all-Gives xs q' junk h.sound (h.same_metadata ∙ meta_q) fit (
        subst (λ big. remaining q' ≡ items_bits big xs ++ junk) (sym (h.same_order ∙ same))
          stream)).value

  by_words :
      (w : ℕ)
      → IsEnough w left
      → (get_all (map shape xs) (put_words w (get_words w full_packer) q)).0 ≡ xs
  unfolding reset
  by_words w enough =
      let f = full_packer.bits in
      let c = word_count w left in
      let vs = get_words w full_packer in
      let len : length vs ≡ c = length-read_words full_packer.big_endian w 0 c f in
      let g = (m_set_size (length vs * w) (reset q)).bits in
      let order : full_packer.big_endian ≡ q.big_endian = is_packed.same_order ∙ sym same in
      let h = write_words q.big_endian w 0 vs g in
      let e : read 0 (c * w) h ≡ read 0 (c * w) f =
        subst (λ big. read 0 (c * w) (write_words big w 0 vs g) ≡ read 0 (c * w) f) order
          (write_words-read_words full_packer.big_endian w 0 c f g) in
      unpacked_from (length vs * w) (put_words w vs q)
        (holds (length vs * w) q h (subst (λ k. k * w < 2 ^ 31) (sym len) enough.1))
        (subst (λ k. left ≤ k * w) (sym len) enough.0)
        (subst (λ k. read 0 (k * w) h ≡ read 0 (k * w) f) (sym len) e)

  by_bits : (get_all (map shape xs) (put_bits (get_bits full_packer) q)).0 ≡ xs
  unfolding put_bits get_bits
  by_bits =
      let f = full_packer.bits in
      let l = read 0 left f in
      let len : length l ≡ left = length-read 0 left f in
      let g = (m_set_size (length l) (reset q)).bits in
      let h = if q.big_endian then write_down 0 l g else write 0 l g in
      let e : read 0 (length l) h ≡ l = read-either q.big_endian 0 l g in
      unpacked_from (length l) (put_bits l q)
        (holds (length l) q h (omega (arith, len, counted, few))) (omega (arith, len))
        (subst (λ k. read 0 (length l) h ≡ read 0 k f) (sym len) e)

  -- Where at least one bit and at most 2^31 - 4096, for which all sizes are of type `int`, have been
  -- packed after a reset, as values that fit their types with the metadata flag set, and what
  -- get_bits, get_bytes or get_ints gives is put into another packer with the same order of bits and
  -- the flag set, the values are unpacked from there.
  pub get_all-transported :
      0 < get_remaining_unpacked_bits (put_all xs (reset p))
      → (get_all (map shape xs) (put_bits (get_bits (put_all xs (reset p))) q)).0 ≡ xs
        × (get_all (map shape xs) (put_bytes (get_bytes (put_all xs (reset p))) q)).0 ≡ xs
        × (get_all (map shape xs) (put_ints (get_ints (put_all xs (reset p))) q)).0 ≡ xs
  unfolding put_bytes put_ints get_bytes get_ints
  get_all-transported some_left =
      let enough = word_count-IsEnough left some_left (omega (arith, counted, few)) in
      (by_bits, by_words 8 enough.0, by_words 32 enough.1)
