-- ===== src/Tests/Packer.antt =====
-- Runs of the packer (src/uvmsc/policy/uvm_packer.cpp).
use system_c_uvm.Base.{◌^◌, ◌≡◌, refl, true, false, List, [], ◌∷◌, none, All, map, arith}
use system_c_uvm.Packer.{m_enough_bits, Packer, reset, get_remaining_unpacked_bits}
use system_c_uvm.Packer.Operations.{pack_string, unpack_string, unpack_field_int}
use system_c_uvm.Packer.Words.{put_bits, get_bits, put_bytes, get_bytes, put_ints, get_ints}
use system_c_uvm.Packer.Transport.{get_all-transported}
use system_c_uvm.Packer.Operators.{
  Item, integral, flag, text, signed, shape, put_all, get_all, Fits,
}
use system_c_uvm.Packer.RoundTrip.{get_all-put_all}

abbrev fresh : Packer
fresh = record {
  bits = λ _. false;
  pack_index = 0;
  unpack_index = 0;
  m_size = 0;
  m_max_size = 0;
  big_endian = true;
  use_metadata = true;
  errors = [];
}

abbrev values : List Item
values = integral 1 200 ∷ text (72 ∷ 105 ∷ []) ∷ flag true ∷ signed (true ∷ false ∷ true ∷ []) ∷ []

back : (get_all (map shape values) (put_all values fresh)).0 ≡ values
unfolding get_all put_all shape
back = refl

-- A string that is packed without its null character is unpacked with an error.
abbrev plain : Packer
plain = record fresh { use_metadata = false }

no_end : (unpack_string none (pack_string (72 ∷ []) plain)).1.errors ≡ "PCKSZERR" ∷ []
unfolding unpack_string pack_string
no_end = refl

-- From 2^31 bits on none seem to be left.
too_many : m_enough_bits 1 (record fresh { pack_index = 2 ^ 31 }) ≡ false
unfolding m_enough_bits
too_many = refl

-- Too few bits are two errors, and nothing is taken.
short : (unpack_field_int 8 fresh).1.errors ≡ "PCKSZERR" ∷ "UNPCKERR" ∷ []
unfolding unpack_field_int
short = refl

values-Fit : All Fits values
unfolding Fits
values-Fit =
    (omega arith, (((omega arith, omega arith), ((omega arith, omega arith), tt)), (tt, (tt, tt))))

abbrev other : Packer
other = record fresh { m_max_size = 4096 }

bits_packed : (put_all values (reset fresh)).pack_index ≡ 36
unfolding put_all reset
bits_packed = refl

bits_left : get_remaining_unpacked_bits (put_all values (reset fresh)) ≡ 36
unfolding get_remaining_unpacked_bits put_all reset
bits_left = refl

get_all-transported_example :
    (get_all (map shape values) (put_bits (get_bits (put_all values (reset fresh))) other)).0
      ≡ values
    × (get_all (map shape values) (put_bytes (get_bytes (put_all values (reset fresh))) other)).0
      ≡ values
    × (get_all (map shape values) (put_ints (get_ints (put_all values (reset fresh))) other)).0
      ≡ values
get_all-transported_example =
    get_all-transported values fresh refl values-Fit (omega (arith, bits_packed)) other refl refl
      (omega (arith, bits_left))

bytes : get_bytes (put_bytes (200 ∷ 7 ∷ []) fresh) ≡ 200 ∷ 7 ∷ []
unfolding get_bytes put_bytes
bytes = refl

get_all-put_all_example :
    (get_all (map shape values) (put_all values (reset fresh))).0 ≡ values
    × (get_all (map shape values) (put_all values (reset fresh))).1.errors ≡ []
    × get_remaining_unpacked_bits (get_all (map shape values) (put_all values (reset fresh))).1 ≡ 0
get_all-put_all_example = get_all-put_all values fresh refl values-Fit (omega (arith, bits_packed))
