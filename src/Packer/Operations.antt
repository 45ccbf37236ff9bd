-- ===== src/Packer/Operations.antt =====
-- src/uvmsc/policy/uvm_packer.cpp: packing and unpacking of each kind of value.
use system_c_uvm.Base.{
  ℕ, zero, suc, ◌+◌, not, ltb, ◌&&◌, ◌||◌, Bool, true, false, if◌then◌else◌, ◌==◌, List, [], ◌∷◌,
  Option, none, some, length,
}
use mathlib.Core.List.{reverse}
use system_c_uvm.Packer.{
  Packer, read, write, bits_of, number, m_check_size, m_enough_bits, check_enough, inc_unpack_index,
  report, get_remaining_unpacked_bits,
}

-- Room is made, the bits are assigned, and pack_index goes behind them.
unfoldable pub append : List Bool → Packer → Packer
unfolding write m_check_size
append l p =
    let p' = m_check_size (length l) p in
    record p' { bits = write p'.pack_index l p'.bits; pack_index = p'.pack_index + length l }

-- The order of the bits of a field.
abbrev pub ordered : Packer → List Bool → List Bool
ordered p l = if p.big_endian then reverse l else l

unfoldable pub pack_field_int : ℕ → ℕ → Packer → Packer
unfolding append bits_of
pack_field_int value size p = append (ordered p (bits_of size value)) p

unfoldable pub pack_field : ℕ → ℕ → Packer → Packer
unfolding append bits_of
pack_field value size p = append (ordered p (bits_of size value)) p

unfoldable pub pack_char : ℕ → Packer → Packer
unfolding append bits_of
pack_char a p = append (ordered p (bits_of 8 a)) p

unfoldable pub pack_chars : List ℕ → Packer → Packer
unfolding pack_char
pack_chars [] p = p
pack_chars (c ∷ cs) p = pack_chars cs (pack_char c p)

unfoldable pub pack_string : List ℕ → Packer → Packer
unfolding pack_chars
pack_string value p = let p' = pack_chars value p in if p.use_metadata then pack_char 0 p' else p'

unfoldable pub pack_bool : Bool → Packer → Packer
unfolding append
pack_bool a = append (a ∷ [])

unfoldable pub pack_sc_bv_base : List Bool → Packer → Packer
unfolding append
pack_sc_bv_base = append

-- Bits that are set one by one.
unfoldable pub set_each : List Bool → Packer → Packer
unfolding write
set_each [] p = p
set_each (b ∷ l) p =
    set_each l
      (record p { bits = write p.pack_index (b ∷ []) p.bits; pack_index = p.pack_index + 1 })

unfoldable pub pack_sc_int_base : List Bool → Packer → Packer
unfolding m_check_size set_each
pack_sc_int_base a p = set_each a (m_check_size (length a) p)

unfoldable pub pack_sc_uint_base : List Bool → Packer → Packer
unfolding m_check_size set_each
pack_sc_uint_base a p = set_each a (m_check_size (length a) p)

unfoldable pub pack_sc_signed : List Bool → Packer → Packer
unfolding m_check_size set_each
pack_sc_signed a p = set_each a (m_check_size (length a) p)

unfoldable pub pack_sc_unsigned : List Bool → Packer → Packer
unfolding m_check_size set_each
pack_sc_unsigned a p = set_each a (m_check_size (length a) p)

abbrev pub next_bits : ℕ → Packer → List Bool
next_bits n p = read p.unpack_index n p.bits

unfoldable pub unpack_field_int : ℕ → Packer → ℕ × Packer
unfolding m_enough_bits check_enough inc_unpack_index read number
unpack_field_int size p =
    if m_enough_bits size p
    then (number (ordered p (next_bits size p)), inc_unpack_index size p)
    else (0, report "UNPCKERR" (check_enough size p))

unfoldable pub unpack_field : ℕ → Packer → ℕ × Packer
unfolding m_enough_bits check_enough inc_unpack_index read number
unpack_field size p =
    if m_enough_bits size p
    then (number (ordered p (next_bits size p)), inc_unpack_index size p)
    else (0, report "UNPCKERR" (check_enough size p))

-- Without a check whether there are enough bits.
unfoldable pub unpack_char : Packer → ℕ × Packer
unfolding inc_unpack_index read number
unpack_char p = (number (ordered p (next_bits 8 p)), inc_unpack_index 8 p)

abbrev at_end : Option ℕ → ℕ → Bool
at_end none i = false
at_end (some n) i = not (ltb i n)

abbrev is_null_term : Option ℕ → Bool
is_null_term none = true
is_null_term (some n) = false

-- The loop of unpack_string, up to a null character or to as many characters as are asked for; each
-- round takes eight bits, so there are no more rounds than bits.
unfoldable pub unpack_chars : ℕ → Option ℕ → ℕ → Packer → List ℕ × Packer
unfolding m_enough_bits check_enough inc_unpack_index read number
unpack_chars zero num_chars i p = ([], p)
unpack_chars (suc fuel) num_chars i p =
    let (cs, p') = unpack_chars fuel num_chars (i + 1) (inc_unpack_index 8 p) in
    if not (m_enough_bits 8 p)
    then ([], check_enough 8 p)
    else if (number (next_bits 8 p) == 0 && is_null_term num_chars) || at_end num_chars i
    then ([], p)
    else (number (ordered p (next_bits 8 p)) ∷ cs, p')

unfoldable pub unpack_string : Option ℕ → Packer → List ℕ × Packer
unfolding unpack_chars get_remaining_unpacked_bits m_enough_bits check_enough inc_unpack_index
unpack_string num_chars p =
    let (s, p') = unpack_chars (get_remaining_unpacked_bits p + 1) num_chars 0 p in
    if not p.use_metadata
    then (s, p')
    else if m_enough_bits 8 p'
    then (s, inc_unpack_index 8 p')
    else (s, check_enough 8 p')

unfoldable pub unpack_bool : Packer → Bool × Packer
unfolding inc_unpack_index
unpack_bool p = (p.bits p.unpack_index, inc_unpack_index 1 p)

unfoldable pub unpack_sc_bv_base : ℕ → Packer → List Bool × Packer
unfolding inc_unpack_index read
unpack_sc_bv_base nbits p = (next_bits nbits p, inc_unpack_index nbits p)

-- Bits that are got one by one, with no check at all.
unfoldable pub get_each : ℕ → Packer → List Bool × Packer
get_each zero p = ([], p)
get_each (suc n) p =
    let (l, p') = get_each n (record p { unpack_index = p.unpack_index + 1 }) in
    (p.bits p.unpack_index ∷ l, p')

unfoldable pub unpack_sc_int_base : ℕ → Packer → List Bool × Packer
unfolding get_each
unpack_sc_int_base n p = get_each n p

unfoldable pub unpack_sc_uint_base : ℕ → Packer → List Bool × Packer
unfolding get_each
unpack_sc_uint_base n p = get_each n p

unfoldable pub unpack_sc_signed : ℕ → Packer → List Bool × Packer
unfolding get_each
unpack_sc_signed n p = get_each n p

unfoldable pub unpack_sc_unsigned : ℕ → Packer → List Bool × Packer
unfolding get_each
unpack_sc_unsigned n p = get_each n p
